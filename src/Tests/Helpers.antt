-- ===== src/Tests/Helpers.antt =====
-- The parsing and rewriting helpers on a frame of 80 bytes, with a kernel that moves its start.
use syncookie_xdp.Prelude.{
  ℕ, ◌+◌, ◌-◌, ◌≤◌, ◌<◌, ◌≡◌, ◌⊎◌, inl, inr, refl, some, none, arith, ltb, ◌==◌, if◌then◌else◌,
  Bool-cases,
}
use syncookie_xdp.Prelude.Int.{pos, negsuc}
use syncookie_xdp.Packet.{Mem, IsBytes, little}
use syncookie_xdp.Machine.{State, ok}
use syncookie_xdp.ParsingHelpers.Protocols.{parse_ip6hdr, parse_iphdr}
use syncookie_xdp.ParsingHelpers.Bounds.{hdrsize, parse_iphdr-outcome}
use syncookie_xdp.ParsingHelpers.Agreement.{through_get, through_parse, through_get-through_parse}
use syncookie_xdp.RewriteHelpers.{
  AdjustHead, swap_src_dst_mac, swap_src_dst_ipv6, swap_src_dst_ipv4,
}
use syncookie_xdp.RewriteHelpers.Tags.{IsAdjust}
use syncookie_xdp.RewriteHelpers.Swaps.{Exchanges, exchanged, swaps-Exchanges}

-- Type 0x8100 with the type 0x86dd in the tag; and at 18 the first byte of an IPv4 header with a
-- length of three words.
abbrev six_bytes : Mem
six_bytes a =
    if a == 12
    then 0x81
    else if a == 16
    then 0x86
    else if a == 17
    then 0xdd
    else if a == 18
    then 0x43
    else if a == 24
    then 58
    else 0

abbrev six_frame : State ℕ
six_frame = record { len = 80; mem = six_bytes; table = 0 }

six_bytes-IsBytes : IsBytes six_bytes
six_bytes-IsBytes a = ground arith

run_parse_ip6hdr : parse_ip6hdr 18 six_frame ≡ ok (some (58, 58)) six_frame
unfolding parse_ip6hdr
run_parse_ip6hdr = refl

run_parse_iphdr : parse_iphdr 18 six_frame ≡ ok (some (0, 30)) six_frame
unfolding parse_iphdr
run_parse_iphdr = refl

parse_iphdr-outcome_example :
    (((80 < 38) ⊎ (80 < 18 + hdrsize six_frame 18))
      × (parse_iphdr 18 six_frame ≡ ok none six_frame))
    ⊎ ((38 ≤ 80)
        × ((18 + hdrsize six_frame 18 ≤ 80)
            × ((hdrsize six_frame 18 ≤ 60)
                × (parse_iphdr 18 six_frame ≡ ok (some (0, 30)) six_frame))))
parse_iphdr-outcome_example = parse_iphdr-outcome six_frame 18

through_get-through_parse_example :
    through_get little 0 six_frame ≡ through_parse little 0 six_frame
through_get-through_parse_example = through_get-through_parse little six_frame six_bytes-IsBytes 0

-- Four zero bytes in front, or four bytes less.
abbrev grow : State ℕ → State ℕ
grow s = record s { len = s.len + 4; mem = λ a. if ltb a 4 then 0 else s.mem (a - 4) }

abbrev shrink : State ℕ → State ℕ
shrink s = record s { len = s.len - 4; mem = λ a. s.mem (a + 4) }

-- The kernel leaves at least an Ethernet header.
abbrev pub adjust_head : AdjustHead ℕ
adjust_head (negsuc n) s = if n == 3 then (pos 0, grow s) else (negsuc 21, s)
adjust_head (pos n) s =
    if n == 4 then (if ltb s.len 18 then (negsuc 21, s) else (pos 0, shrink s)) else (negsuc 21, s)

pub adjust_head-IsAdjust : IsAdjust adjust_head
adjust_head-IsAdjust = record {
  grow-cases = λ s. inl (
    refl,
    record {
      len = refl;
      table = refl;
      kept = λ a. ground arith;
      bytes = λ b a. let p = b (a - 4) in ground arith;
    },
  );
  shrink-cases = λ s. elim (Bool-cases (ltb s.len 18)) [
    | inl short ↦ inr (rw short refl, rw short refl)
    | inr enough ↦
        inl (
          rw enough refl,
          rw enough (record { len = ground arith; table = refl; kept = λ a. refl }),
        )
  ];
}

swaps-Exchanges_example :
    Exchanges six_frame six_bytes-IsBytes 0 6 (swap_src_dst_mac 0 six_frame)
    × Exchanges six_frame six_bytes-IsBytes 26 16 (swap_src_dst_ipv6 18 six_frame)
    × Exchanges six_frame six_bytes-IsBytes 30 4 (swap_src_dst_ipv4 little 18 six_frame)
    × ((q n : ℕ) → exchanged q n (exchanged q n six_bytes) ≡ six_bytes)
swaps-Exchanges_example =
    swaps-Exchanges six_frame six_bytes-IsBytes little 0 18 18 (omega arith) (omega arith)
      (omega arith)
