-- ===== src/ParsingHelpers.antt =====
-- common/parsing_helpers.h: parse_ethhdr, which looks through up to five VLAN tags.
pub mod Protocols
pub mod Bounds
pub mod Agreement
use syncookie_xdp.Prelude.{
  ℕ, zero, suc, ◌+◌, ◌*◌, ◌/◌, ◌%◌, ◌<◌, ◌≤◌, ◌≡◌, ◌⊎◌, inl, inr, ◌↔◌, Bool, true, not, ◌||◌,
  Option, none, some, ◌==◌, ltb, refl, arith, if◌then◌else◌, Bool-cases, ap, ◌∙◌, leb, le→leb,
}
use syncookie_xdp.Packet.{Endian, little, big, Mem, IsBytes, get16}
use syncookie_xdp.Machine.{State, Cmd, Run, ok, at, load16, and_then, ◌>>=◌}

-- bpf_htons and bpf_ntohs of headers/bpf_endian.h.
abbrev pub swap16 : Endian → ℕ → ℕ
swap16 little v = v % 256 * 256 + v / 256 % 256
swap16 big v = v

-- ETH_P_8021Q and ETH_P_8021AD.
abbrev pub proto_is_vlan : Endian → ℕ → Bool
proto_is_vlan e h_proto = (h_proto == swap16 e 0x8100) || (h_proto == swap16 e 0x88a8)

abbrev pub vlan_max_depth : ℕ
vlan_max_depth = 5

module _ {T : Type 0} (e : Endian) where
  -- The loop of parse_ethhdr with `left` rounds to go: `h_proto` and `vlh` when it ends.
  unfoldable pub vlan_loop : ℕ → ℕ → ℕ → Cmd T (ℕ × ℕ)
  unfolding load16
  vlan_loop zero h_proto vlh = λ s. ok (h_proto, vlh) s
  vlan_loop (suc left) h_proto vlh = λ s.
      if not (proto_is_vlan e h_proto)
      then ok (h_proto, vlh) s
      else if ltb s.len (vlh + 4)
      then ok (h_proto, vlh) s
      else (load16 e (at vlh) 2 >>= λ next. vlan_loop left next (vlh + 4)) s

  -- The value that is returned and the new position; `none` for -1, where nothing is written. The
  -- header is at the old position.
  unfoldable pub parse_ethhdr : ℕ → Cmd T (Option (ℕ × ℕ))
  unfolding load16 vlan_loop
  parse_ethhdr pos s =
      if ltb s.len (pos + 14)
      then ok none s
      else (load16 e (at pos) 12 >>= λ h_proto.
            vlan_loop vlan_max_depth h_proto (pos + 14) >>= λ found.
            ok (some (swap16 e found.0, found.1)))
          s

-- In the network's order: a type field at `p` names a VLAN tag.
abbrev pub IsVlan : Mem → ℕ → Type 0
IsVlan m p = (get16 big m p ≡ 0x8100) ⊎ (get16 big m p ≡ 0x88a8)

-- From the type field at `p`, `tags` VLAN tags that fit into `len` bytes lead to the one at `q`.
pub data Tagged (m : Mem) (len : ℕ) : ℕ → ℕ → ℕ → Type 0 where
  here : {p : ℕ} → Tagged m len 0 p p
  tag :
      {tags p q : ℕ}
      → IsVlan m p
      → p + 6 ≤ len
      → Tagged m len tags (p + 4) q
      → Tagged m len (suc tags) p q

pub swap16-get16 :
    (e : Endian) (m : Mem) (p : ℕ) → IsBytes m → swap16 e (get16 e m p) ≡ get16 big m p
swap16-get16 little m p bytes = let a = bytes p in let b = bytes (p + 1) in omega arith
swap16-get16 big m p bytes = refl

pub proto_is_vlan-IsVlan :
    (e : Endian) (m : Mem) (p : ℕ) → IsBytes m → (proto_is_vlan e (get16 e m p) ≡ true) ↔ IsVlan m p
proto_is_vlan-IsVlan little m p bytes = let a = bytes p in let b = bytes (p + 1) in ground arith
proto_is_vlan-IsVlan big m p bytes = ground arith

module _ {T : Type 0} (e : Endian) (s : State T) (bytes : IsBytes s.mem) where
  -- From the type field at `p`, a run of the loop ends at the one at `q` behind some tags: after all
  -- its rounds, or where there is no tag, or one that does not fit.
  pub record IsFound (left p : ℕ) (result : Run T (ℕ × ℕ)) : Type 0 where
    pub tags : ℕ
    pub q : ℕ
    pub path : Tagged s.mem s.len tags p q
    pub returned : result ≡ ok (get16 e s.mem q, q + 2) s
    pub tags-le : tags ≤ left
    pub fits : q + 2 ≤ s.len
    pub ended : (tags ≡ left) ⊎ ((¬ (IsVlan s.mem q)) ⊎ (s.len < q + 6))

  read_type : (p : ℕ) → p + 6 ≤ s.len → load16 e (at (p + 2)) 2 s ≡ ok (get16 e s.mem (p + 4)) s
  unfolding load16
  read_type p h =
      let same : p + 2 + 2 ≡ p + 4 = omega arith in
      let room : leb (p + 2 + 2 + 2) s.len ≡ true = le→leb (p + 2 + 2 + 2) s.len (omega arith) in
      rw room (ap (λ (a : ℕ). ok (get16 e s.mem a) s) same)

  vlan_loop-IsFound :
      (left p : ℕ) → p + 2 ≤ s.len → IsFound left p (vlan_loop e left (get16 e s.mem p) (p + 2) s)
  unfolding vlan_loop
  vlan_loop-IsFound zero p h = record {
    tags = 0;
    q = p;
    path = here;
    returned = refl;
    tags-le = omega arith;
    fits = h;
    ended = inl refl;
  }
  vlan_loop-IsFound (suc left) p h = elim (Bool-cases (proto_is_vlan e (get16 e s.mem p))) [
    | inr other ↦ record {
      tags = 0;
      q = p;
      path = here;
      returned = rw other refl;
      tags-le = omega arith;
      fits = h;
      ended =
          inr (
            inl (λ v. let t = (proto_is_vlan-IsVlan e s.mem p bytes).1 v in absurd (ground arith)));
    }
    | inl vlan ↦ elim (Bool-cases (ltb s.len (p + 2 + 4))) [
      | inl short ↦ record {
        tags = 0;
        q = p;
        path = here;
        returned = rw vlan (rw short refl);
        tags-le = omega arith;
        fits = h;
        ended = inr (inr (ground arith));
      }
      | inr room ↦
          let rest = vlan_loop-IsFound left (p + 4) (ground arith) in
          record {
            tags = suc rest.tags;
            q = rest.q;
            path = tag ((proto_is_vlan-IsVlan e s.mem p bytes).0 vlan) (ground arith) rest.path;
            returned = rw vlan (
                rw room (
                  ap (λ (r : Run T ℕ). and_then r (λ next. vlan_loop e left next (p + 2 + 4)))
                    (read_type p (ground arith))
                  ∙ ap (λ (a : ℕ). vlan_loop e left (get16 e s.mem (p + 4)) a s) (omega arith)
                  ∙ rest.returned));
            tags-le = let t = rest.tags-le in omega arith;
            fits = rest.fits;
            ended = elim rest.ended [ inl all ↦ inl (ap suc all) | inr why ↦ inr why ];
          }
    ]
  ]

  -- What parse_ethhdr gives at `pos`: -1 if there is no room for a header, else the type behind the
  -- tags that it looks through, in the host's order, with the position behind that type.
  pub record IsParsed (pos : ℕ) (result : Run T (Option (ℕ × ℕ))) : Type 0 where
    pub tags : ℕ
    pub q : ℕ
    pub path : Tagged s.mem s.len tags (pos + 12) q
    pub returned : result ≡ ok (some (get16 big s.mem q, q + 2)) s
    pub tags-le : tags ≤ vlan_max_depth
    pub fits : q + 2 ≤ s.len
    pub ended : (tags ≡ vlan_max_depth) ⊎ ((¬ (IsVlan s.mem q)) ⊎ (s.len < q + 6))

  read_first :
      (pos : ℕ) → pos + 14 ≤ s.len → load16 e (at pos) 12 s ≡ ok (get16 e s.mem (pos + 12)) s
  unfolding load16
  read_first pos h =
      let room : leb (pos + 12 + 2) s.len ≡ true = le→leb (pos + 12 + 2) s.len (omega arith) in
      rw room refl

  -- From any position in any packet, parse_ethhdr makes no access outside of it: it gives -1 exactly
  -- where no header fits, and else the type behind at most five VLAN tags, of which each fits, and
  -- after which there are five, or no further tag, or one that does not fit.
  pub parse_ethhdr-IsParsed :
      (pos : ℕ)
      → ((s.len < pos + 14) × (parse_ethhdr e pos s ≡ ok none s))
        ⊎ ((pos + 14 ≤ s.len) × IsParsed pos (parse_ethhdr e pos s))
  unfolding parse_ethhdr
  parse_ethhdr-IsParsed pos = elim (Bool-cases (ltb s.len (pos + 14))) [
    | inl short ↦ inl (ground arith, rw short refl)
    | inr room ↦
        let found = vlan_loop-IsFound vlan_max_depth (pos + 12) (ground arith) in
        inr (
          ground arith,
          record {
            tags = found.tags;
            q = found.q;
            path = found.path;
            returned = rw room (
                ap
                  (λ (r : Run T ℕ). and_then r (λ h_proto.
                    vlan_loop e vlan_max_depth h_proto (pos + 14) >>= λ (f : ℕ × ℕ).
                    ok (some (swap16 e f.0, f.1))))
                  (read_first pos (ground arith))
                ∙ ap
                    (λ (a : ℕ).
                      and_then (vlan_loop e vlan_max_depth (get16 e s.mem (pos + 12)) a s)
                        (λ (f : ℕ × ℕ). ok (some (swap16 e f.0, f.1))))
                    (omega arith)
                ∙ ap
                    (λ (r : Run T (ℕ × ℕ)).
                      and_then r (λ (f : ℕ × ℕ). ok (some (swap16 e f.0, f.1))))
                    found.returned
                ∙ ap (λ (v : ℕ). ok (some (v, found.q + 2)) s)
                    (swap16-get16 e s.mem found.q bytes));
            tags-le = found.tags-le;
            fits = found.fits;
            ended = found.ended;
          },
        )
  ]
