-- ===== src/Parser/Bounds.antt =====
-- The three parsers of src/parser.h stay inside the packet, whatever they are given.
use syncookie_xdp.Prelude.{
  ℕ, ◌+◌, ◌≤◌, ◌<◌, ◌≡◌, ◌≢◌, ◌⊎◌, inl, inr, refl, Option, arith, ltb, Bool-cases,
}
use syncookie_xdp.Prelude.Int.{pos, negsuc}
use syncookie_xdp.Packet.{Endian, get16}
use syncookie_xdp.Machine.{State, Run, Ptr, at, ok}
use syncookie_xdp.Headers.{HdrCursor}
use syncookie_xdp.Headers.Ethernet
use syncookie_xdp.Headers.Ipv4
use syncookie_xdp.Headers.Tcp
use syncookie_xdp.Parser.{
  Parsed, write_slot, too_short, cursor, parse_ether, parse_ipv4, parse_tcphdr,
}

module _ {T : Type 0} (s : State T) (nh : HdrCursor) (slot : Option Ptr) where
  -- The code is -1, the header does not fit, and cursor and slot are as before.
  pub record IsRefused (size : ℕ) (r : Parsed) : Type 0 where
    pub code : r.code ≡ negsuc 0
    pub short : s.len < nh.pos + size
    pub nh_kept : r.nh ≡ nh
    pub slot_kept : r.out ≡ slot

  -- The code is not -1, the cursor is behind the header and still in the packet, and the slot holds
  -- the header's address.
  pub record IsAccepted (size : ℕ) (r : Parsed) : Type 0 where
    pub code : r.code ≢ negsuc 0
    pub moved : r.nh.pos ≡ nh.pos + size
    pub within : r.nh.pos ≤ s.len
    pub slot_written : r.out ≡ write_slot slot (at nh.pos)

  -- The run makes no invalid access, writes nothing, and refuses or accepts.
  abbrev pub IsSafe : ℕ → Run T Parsed → Type 0
  IsSafe size run = (r : Parsed) × (run ≡ ok r s) × (IsRefused size r ⊎ IsAccepted size r)

module _ {T : Type 0} (e : Endian) (s : State T) (nh : HdrCursor) (slot : Option Ptr) where
  parse_ether-IsSafe : IsSafe s nh slot Ethernet.size (parse_ether e nh slot s)
  unfolding parse_ether
  parse_ether-IsSafe = elim (Bool-cases (ltb s.len (nh.pos + Ethernet.size))) [
    | inl short ↦ (
      too_short nh slot,
      ground arith,
      inl (record { code = refl; short = ground arith; nh_kept = refl; slot_kept = refl }),
    )
    | inr fits ↦ (
      record {
        code = pos (get16 e s.mem (nh.pos + Ethernet.ether_type));
        nh = cursor (nh.pos + Ethernet.size);
        out = write_slot slot (at nh.pos);
      },
      ground arith,
      inr (record { code = λ h. cc; moved = refl; within = ground arith; slot_written = refl }),
    )
  ]

  parse_ipv4-IsSafe : IsSafe s nh slot Ipv4.size (parse_ipv4 nh slot s)
  unfolding parse_ipv4
  parse_ipv4-IsSafe = elim (Bool-cases (ltb s.len (nh.pos + Ipv4.size))) [
    | inl short ↦ (
      too_short nh slot,
      ground arith,
      inl (record { code = refl; short = ground arith; nh_kept = refl; slot_kept = refl }),
    )
    | inr fits ↦ (
      record {
        code = pos (s.mem (nh.pos + Ipv4.protocol));
        nh = cursor (nh.pos + Ipv4.size);
        out = write_slot slot (at nh.pos);
      },
      ground arith,
      inr (record { code = λ h. cc; moved = refl; within = ground arith; slot_written = refl }),
    )
  ]

  parse_tcphdr-IsSafe : IsSafe s nh slot Tcp.size (parse_tcphdr nh slot s)
  unfolding parse_tcphdr
  parse_tcphdr-IsSafe = elim (Bool-cases (ltb s.len (nh.pos + Tcp.size))) [
    | inl short ↦ (
      too_short nh slot,
      ground arith,
      inl (record { code = refl; short = ground arith; nh_kept = refl; slot_kept = refl }),
    )
    | inr fits ↦ (
      record { code = pos 0; nh = cursor (nh.pos + Tcp.size); out = write_slot slot (at nh.pos) },
      ground arith,
      inr (record { code = λ h. cc; moved = refl; within = ground arith; slot_written = refl }),
    )
  ]

  -- At any cursor, each of the three parsers runs without an invalid access and changes nothing of
  -- the state. It returns -1 exactly if the header does not fit, with cursor and slot as before;
  -- otherwise the cursor is behind the header and still in the packet.
  pub parsers-IsSafe :
      IsSafe s nh slot Ethernet.size (parse_ether e nh slot s)
      × IsSafe s nh slot Ipv4.size (parse_ipv4 nh slot s)
      × IsSafe s nh slot Tcp.size (parse_tcphdr nh slot s)
  parsers-IsSafe = (parse_ether-IsSafe, parse_ipv4-IsSafe, parse_tcphdr-IsSafe)
