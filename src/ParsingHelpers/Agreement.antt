-- ===== src/ParsingHelpers/Agreement.antt =====
-- The two ways through common/parsing_helpers.h to an IPv6 header.
use syncookie_xdp.Prelude.{
  ℕ, zero, suc, ◌+◌, ◌^◌, ◌≤◌, ◌<◌, ◌≡◌, inl, inr, refl, Option, none, some, arith, ltb, le→leb,
  Bool-cases, true, false, ◌==◌, if◌then◌else◌, ap, sym, ◌∙◌,
}
use syncookie_xdp.Packet.{Endian, little, big, Mem, IsBytes, get16}
use syncookie_xdp.Machine.{State, Run, Cmd, ok, fault, pure, at, load16, ◌>>=◌, and_then}
use syncookie_xdp.ParsingHelpers.{
  swap16, proto_is_vlan, vlan_max_depth, vlan_loop, parse_ethhdr, vlan_loop-IsFound,
}
use syncookie_xdp.ParsingHelpers.Protocols.{
  eth_p_ipv6, ip6hdr_size, get_ethhdr, tag_loop, ip6hdr_at, after_loop, get_ip6hdr, parse_ip6hdr,
}

get16-lt : (e : Endian) (m : Mem) (p : ℕ) → IsBytes m → get16 e m p < 2 ^ 16
get16-lt little m p bytes = let a = bytes p in let b = bytes (p + 1) in omega arith
get16-lt big m p bytes = let a = bytes p in let b = bytes (p + 1) in omega arith

-- A tag's type is not that of IPv6.
vlan_not_ip6 :
    (e : Endian) (h_proto : ℕ)
    → proto_is_vlan e h_proto ≡ true
    → (h_proto == swap16 e eth_p_ipv6) ≡ false
vlan_not_ip6 little h_proto h = ground arith
vlan_not_ip6 big h_proto h = ground arith

-- The two ways of asking for the type of IPv6.
type_eq :
    (e : Endian) (h_proto : ℕ)
    → h_proto < 2 ^ 16
    → (swap16 e h_proto == eth_p_ipv6) ≡ (h_proto == swap16 e eth_p_ipv6)
type_eq little h_proto h = ground arith
type_eq big h_proto h = refl

and_then_assoc :
    {T A B C : Type 0} (r : Run T A) (f : A → Cmd T B) (g : B → Cmd T C)
    → and_then (and_then r f) g ≡ and_then r (λ x s. and_then (f x s) g)
and_then_assoc (ok x s) f g = refl
and_then_assoc fault f g = refl

module _ {T : Type 0} (e : Endian) (s : State T) (bytes : IsBytes s.mem) where
  get16_lt : (p : ℕ) → get16 e s.mem p < 2 ^ 16
  get16_lt p = get16-lt e s.mem p bytes

  read_at :
      (p off : ℕ) → p + off + 2 ≤ s.len → load16 e (at p) off s ≡ ok (get16 e s.mem (p + off)) s
  unfolding load16
  read_at p off h = rw (le→leb (p + off + 2) s.len h) refl

  -- Both loops lead to the same header, also where a tag is cut off.
  loops_agree :
      (left h_proto vlh : ℕ)
      → h_proto < 2 ^ 16
      → and_then (tag_loop e left h_proto vlh s) (after_loop e)
        ≡ and_then (vlan_loop e left h_proto vlh s) (ip6hdr_at e)
  unfolding tag_loop vlan_loop load16
  loops_agree zero h_proto vlh h = refl
  loops_agree (suc left) h_proto vlh h = elim (Bool-cases (proto_is_vlan e h_proto)) [
    | inr other ↦ rw other refl
    | inl vlan ↦ elim (Bool-cases (ltb s.len (vlh + 4))) [
      | inl short ↦ rw vlan (rw short rw (vlan_not_ip6 e h_proto vlan) refl)
      | inr fits ↦ rw vlan (
          rw fits (
            let read = read_at vlh 2 (ground arith) in
            ap
              (λ (r : Run T ℕ).
                and_then (and_then r (λ next. tag_loop e left next (vlh + 4))) (after_loop e))
              read
            ∙ loops_agree left (get16 e s.mem (vlh + 2)) (vlh + 4) (get16_lt (vlh + 2))
            ∙ sym (
                ap
                  (λ (r : Run T ℕ).
                    and_then (and_then r (λ next. vlan_loop e left next (vlh + 4))) (ip6hdr_at e))
                  read)))
    ]
  ]

-- get_ethhdr, and get_ip6hdr on what it gives.
abbrev pub through_get : {T : Type 0} → Endian → ℕ → Cmd T (Option (ℕ × ℕ))
through_get e nh = get_ethhdr nh >>= λ found. elim found [
  | none ↦ pure none
  | some place ↦ get_ip6hdr e place.0 place.1
]

-- parse_ip6hdr, where the type is that of IPv6.
abbrev pub parse_if_ip6 : {T : Type 0} → Option (ℕ × ℕ) → Cmd T (Option (ℕ × ℕ))
parse_if_ip6 none = pure none
parse_if_ip6 (some place) =
    if place.0 == eth_p_ipv6
    then (parse_ip6hdr place.1 >>= λ parsed. elim parsed [
      | none ↦ pure none
      | some header ↦ pure (some (place.1, header.1))
    ])
    else pure none

abbrev pub through_parse : {T : Type 0} → Endian → ℕ → Cmd T (Option (ℕ × ℕ))
through_parse e nh = parse_ethhdr e nh >>= parse_if_ip6

module _ {T : Type 0} (e : Endian) (s : State T) (bytes : IsBytes s.mem) where
  header_agrees :
      (h_proto p : ℕ)
      → h_proto < 2 ^ 16
      → ip6hdr_at e (h_proto, p) s ≡ parse_if_ip6 (some (swap16 e h_proto, p)) s
  unfolding parse_ip6hdr
  header_agrees h_proto p h =
      rw (type_eq e h_proto h) (elim (Bool-cases (h_proto == swap16 e eth_p_ipv6)) [
        | inr other ↦ rw other refl
        | inl ip6 ↦ elim (Bool-cases (ltb s.len (p + ip6hdr_size))) [
          | inl short ↦ rw ip6 (rw short refl)
          | inr fits ↦ rw ip6 (rw fits (rw (le→leb (p + 6 + 1) s.len (ground arith)) refl))
        ]
      ])

  found_agrees :
      (p vlh : ℕ)
      → p + 2 ≤ s.len
      → vlh ≡ p + 2
      → and_then (vlan_loop e vlan_max_depth (get16 e s.mem p) vlh s) (ip6hdr_at e)
        ≡ and_then
            (vlan_loop e vlan_max_depth (get16 e s.mem p) vlh s)
            (λ f. parse_if_ip6 (some (swap16 e f.0, f.1)))
  found_agrees p vlh h same =
      let found = vlan_loop-IsFound e s bytes vlan_max_depth p h in
      rw same (
        rw found.returned
          (header_agrees (get16 e s.mem found.q) (found.q + 2) (get16_lt e s bytes found.q)))

  -- On a packet of bytes, get_ethhdr and get_ip6hdr find an IPv6 header exactly where parse_ethhdr
  -- and parse_ip6hdr find one, at the same place and with the same cursor behind it, for every
  -- number of VLAN tags and wherever the packet ends.
  pub through_get-through_parse : (nh : ℕ) → through_get e nh s ≡ through_parse e nh s
  unfolding get_ethhdr parse_ethhdr get_ip6hdr
  through_get-through_parse nh = elim (Bool-cases (ltb s.len (nh + 14))) [
    | inl short ↦ rw short refl
    | inr fits ↦ rw fits (
        rw (read_at e s bytes nh 12 (ground arith)) (
          loops_agree e s bytes vlan_max_depth (get16 e s.mem (nh + 12)) (nh + 14)
            (get16_lt e s bytes (nh + 12))
          ∙ found_agrees (nh + 12) (nh + 14) (ground arith) (omega arith)
          ∙ sym (
              and_then_assoc (vlan_loop e vlan_max_depth (get16 e s.mem (nh + 12)) (nh + 14) s)
                (λ f. ok (some (swap16 e f.0, f.1))) parse_if_ip6)))
  ]
