-- ===== src/ParsingHelpers/Bounds.antt =====
-- The parsers of common/parsing_helpers.h behind the Ethernet header stay inside the packet.
use syncookie_xdp.Prelude.{
  ℕ, ◌+◌, ◌*◌, ◌%◌, ◌≤◌, ◌<◌, ◌≡◌, ◌⊎◌, inl, inr, Option, none, some, arith, ltb, Bool-cases,
}
use syncookie_xdp.Machine.{State, Run, ok}
use syncookie_xdp.ParsingHelpers.Protocols.{
  ip6hdr_size, iphdr_size, icmphdr_size, icmphdr_common_size, parse_ip6hdr, parse_iphdr,
  parse_icmp6hdr, parse_icmphdr, parse_icmphdr_common,
}

module _ {T : Type 0} (s : State T) (nh : ℕ) where
  -- A run that changes nothing and gives -1 exactly if `size` bytes do not fit at the cursor, and
  -- else the byte at `off`, with the cursor `size` bytes further.
  abbrev pub IsBounded : ℕ → ℕ → Run T (Option (ℕ × ℕ)) → Type 0
  IsBounded size off run =
      ((s.len < nh + size) × (run ≡ ok none s))
      ⊎ ((nh + size ≤ s.len) × (run ≡ ok (some (s.mem (nh + off), nh + size)) s))

  parse_ip6hdr-IsBounded : IsBounded ip6hdr_size 6 (parse_ip6hdr nh s)
  unfolding parse_ip6hdr
  parse_ip6hdr-IsBounded = elim (Bool-cases (ltb s.len (nh + ip6hdr_size))) [
    | inl short ↦ inl (ground arith, ground arith)
    | inr fits ↦ inr (ground arith, ground arith)
  ]

  parse_icmp6hdr-IsBounded : IsBounded icmphdr_size 0 (parse_icmp6hdr nh s)
  unfolding parse_icmp6hdr
  parse_icmp6hdr-IsBounded = elim (Bool-cases (ltb s.len (nh + icmphdr_size))) [
    | inl short ↦ inl (ground arith, ground arith)
    | inr fits ↦ inr (ground arith, ground arith)
  ]

  parse_icmphdr-IsBounded : IsBounded icmphdr_size 0 (parse_icmphdr nh s)
  unfolding parse_icmphdr
  parse_icmphdr-IsBounded = elim (Bool-cases (ltb s.len (nh + icmphdr_size))) [
    | inl short ↦ inl (ground arith, ground arith)
    | inr fits ↦ inr (ground arith, ground arith)
  ]

  parse_icmphdr_common-IsBounded : IsBounded icmphdr_common_size 0 (parse_icmphdr_common nh s)
  unfolding parse_icmphdr_common
  parse_icmphdr_common-IsBounded = elim (Bool-cases (ltb s.len (nh + icmphdr_common_size))) [
    | inl short ↦ inl (ground arith, ground arith)
    | inr fits ↦ inr (ground arith, ground arith)
  ]

  abbrev pub hdrsize : ℕ
  hdrsize = s.mem nh % 16 * 4

  -- At any cursor, the parsers of IPv6, ICMPv6 and ICMP headers and of the part that the last two
  -- share make no access outside of the packet and change nothing: each gives -1 exactly if its
  -- header does not fit, and else the header's type, with the cursor behind the header.
  pub parsers-IsBounded :
      IsBounded ip6hdr_size 6 (parse_ip6hdr nh s)
      × IsBounded icmphdr_size 0 (parse_icmp6hdr nh s)
      × IsBounded icmphdr_size 0 (parse_icmphdr nh s)
      × IsBounded icmphdr_common_size 0 (parse_icmphdr_common nh s)
  parsers-IsBounded = (
    parse_ip6hdr-IsBounded, parse_icmp6hdr-IsBounded, parse_icmphdr-IsBounded,
    parse_icmphdr_common-IsBounded,
  )

  -- parse_iphdr makes no access outside of the packet and changes nothing. It gives -1 exactly if
  -- 20 bytes, or as many as the length in the header says, do not fit; else the protocol, and the
  -- cursor moves by that length, which keeps it in the packet and within 60 bytes, and inside the
  -- header where the length is below 20.
  pub parse_iphdr-outcome :
      (((s.len < nh + iphdr_size) ⊎ (s.len < nh + hdrsize)) × (parse_iphdr nh s ≡ ok none s))
      ⊎ ((nh + iphdr_size ≤ s.len)
          × ((nh + hdrsize ≤ s.len)
              × ((hdrsize ≤ 60) × (parse_iphdr nh s ≡ ok (some (s.mem (nh + 9), nh + hdrsize)) s))))
  unfolding parse_iphdr
  parse_iphdr-outcome = elim (Bool-cases (ltb s.len (nh + iphdr_size))) [
    | inl short ↦ inl (inl (ground arith), ground arith)
    | inr fits ↦ elim (Bool-cases (ltb s.len (nh + hdrsize))) [
      | inl short ↦ inl (inr (ground arith), ground arith)
      | inr all ↦ inr (ground arith, (ground arith, (omega arith, ground arith)))
    ]
  ]
