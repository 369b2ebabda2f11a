-- ===== src/RewriteHelpers/Parsed.antt =====
-- What parse_ethhdr of common/parsing_helpers.h finds on a packet with tags from vlan_tag_push.
use syncookie_xdp.Prelude.{
  ℕ, zero, suc, ◌+◌, ◌*◌, ◌≤◌, ◌<◌, ◌≡◌, ◌⊎◌, inl, inr, refl, ap, ap₂, sym, subst, ◌∙◌, some, List,
  [], ◌∷◌, arith, length, some_inj,
}
use syncookie_xdp.Packet.{Endian, big, Mem, IsBytes, get16}
use syncookie_xdp.Machine.{State, ok}
use syncookie_xdp.ParsingHelpers.{
  vlan_max_depth, parse_ethhdr, parse_ethhdr-IsParsed, IsVlan, Tagged, here, tag,
}
use syncookie_xdp.RewriteHelpers.{AdjustHead}
use syncookie_xdp.RewriteHelpers.Tags.{IsAdjust, IsTagged}
use syncookie_xdp.RewriteHelpers.Stack.{push_all, push_all-cases}

-- There is no further tag at `q`, or none that fits.
abbrev pub IsLast : Mem → ℕ → ℕ → Type 0
IsLast m len q = (¬ IsVlan m q) ⊎ (len < q + 6)

module _ (m : Mem) (len : ℕ) where
  stop_here : (q : ℕ) → IsLast m len q → IsVlan m q → q + 6 ≤ len → ⊥
  stop_here q (inl other) vlan room = other vlan
  stop_here q (inr short) vlan room = omega arith

  -- Two ways through the tags from one type field end at the same, if one ends behind the last tag, and
  -- the other there or after `left` tags, which are enough.
  Tagged-unique :
      {tags tags' p q q' : ℕ} (left : ℕ)
      → Tagged m len tags p q
      → Tagged m len tags' p q'
      → IsLast m len q
      → tags ≤ left
      → (tags' ≡ left) ⊎ IsLast m len q'
      → q' ≡ q
  Tagged-unique left here here last le ended = refl
  Tagged-unique left (here {p}) (tag vlan room path) last le ended =
      absurd (stop_here p last vlan room)
  Tagged-unique left (tag {p} vlan room path) here last le (inl all) = absurd (omega arith)
  Tagged-unique left (tag {p} vlan room path) here last le (inr last') =
      absurd (stop_here p last' vlan room)
  Tagged-unique zero (tag vlan room path) (tag vlan' room' path') last le ended =
      absurd (omega arith)
  Tagged-unique (suc left) (tag vlan room path) (tag vlan' room' path') last le (inl all) =
      Tagged-unique left path path' last (omega arith) (inl (omega arith))
  Tagged-unique (suc left) (tag vlan room path) (tag vlan' room' path') last le (inr last') =
      Tagged-unique left path path' last (omega arith) (inr last')

-- From the first type field, at 12, the packet has VLAN tags up to the type at `q`, and no more.
pub record IsBehind {T : Type 0} (s : State T) (tags q : ℕ) : Type 0 where
  pub path : Tagged s.mem s.len tags 12 q
  pub last : IsLast s.mem s.len q
  pub fits : q + 2 ≤ s.len
  pub behind : 12 ≤ q

module _ (m m' : Mem) (len len' : ℕ) (longer : len' ≡ len + 4)
    (rest : (a : ℕ) → 12 ≤ a → m' (a + 4) ≡ m a) where
  get16-shift : (p : ℕ) → 12 ≤ p → get16 big m' (p + 4) ≡ get16 big m p
  get16-shift p h =
      let same : p + 4 + 1 ≡ p + 1 + 4 = omega arith in
      ap₂ (λ (x y : ℕ). 256 * x + y) (rest p h) (ap m' same ∙ rest (p + 1) (omega arith))

  IsVlan-shift : (p : ℕ) → 12 ≤ p → IsVlan m p → IsVlan m' (p + 4)
  IsVlan-shift p h (inl e) = inl (get16-shift p h ∙ e)
  IsVlan-shift p h (inr e) = inr (get16-shift p h ∙ e)

  IsVlan-unshift : (p : ℕ) → 12 ≤ p → IsVlan m' (p + 4) → IsVlan m p
  IsVlan-unshift p h (inl e) = inl (sym (get16-shift p h) ∙ e)
  IsVlan-unshift p h (inr e) = inr (sym (get16-shift p h) ∙ e)

  Tagged-shift :
      {tags p q : ℕ} → 12 ≤ p → Tagged m len tags p q → Tagged m' len' tags (p + 4) (q + 4)
  Tagged-shift h here = here
  Tagged-shift h (tag {p} vlan room path) =
      tag (IsVlan-shift p h vlan) (omega arith) (Tagged-shift (omega arith) path)

  IsLast-shift : (q : ℕ) → 12 ≤ q → IsLast m len q → IsLast m' len' (q + 4)
  IsLast-shift q h (inl other) = inl (λ v. other (IsVlan-unshift q h v))
  IsLast-shift q h (inr short) = inr (omega arith)

module _ {T : Type 0} where
  IsTagged-IsBehind :
      (vlid : ℕ) (s s1 : State T) (tags q : ℕ)
      → IsTagged vlid s s1
      → IsBehind s tags q
      → IsBehind s1 (suc tags) (q + 4)
  IsTagged-IsBehind vlid s s1 tags q on b =
      let l = on.len in
      let f = b.fits in
      let h = b.behind in
      record {
        path =
            tag (inl on.type) (omega arith)
              (Tagged-shift s.mem s1.mem s.len s1.len on.len on.rest (omega arith) b.path);
        last = IsLast-shift s.mem s1.mem s.len s1.len on.len on.rest q b.behind b.last;
        fits = omega arith;
        behind = omega arith;
      }

  module _ (e : Endian) where
    parse-IsBehind :
        (s : State T) (tags q : ℕ)
        → IsBytes s.mem
        → IsBehind s tags q
        → tags ≤ vlan_max_depth
        → parse_ethhdr e 0 s ≡ ok (some (get16 big s.mem q, q + 2)) s
    parse-IsBehind s tags q bytes b le = elim (parse_ethhdr-IsParsed e s bytes 0) [
      | inl (short, none_found) ↦ absurd (let f = b.fits in let h = b.behind in omega arith)
      | inr (room, parsed) ↦
          let same =
            Tagged-unique s.mem s.len vlan_max_depth b.path parsed.path b.last le parsed.ended in
          parsed.returned ∙ ap (λ (x : ℕ). ok (some (get16 big s.mem x, x + 2)) s) same
    ]

    module _ (adjust_head : AdjustHead T) (kernel : IsAdjust adjust_head) where
      pushed-IsBehind :
          (vlids : List ℕ) (s t : State T) (tags q : ℕ)
          → IsBytes s.mem
          → IsBehind s tags q
          → push_all e adjust_head vlids s ≡ some t
          → (tags' q' : ℕ) × (tags' ≡ length vlids + tags)
            × (q' ≡ q + 4 * length vlids)
            × IsBytes t.mem
            × IsBehind t tags' q'
            × (get16 big t.mem q' ≡ get16 big s.mem q)
      unfolding push_all
      pushed-IsBehind [] s t tags q bytes b pushed =
          let (bytes', b', same) =
            subst
              (λ (u : State T).
                IsBytes u.mem × IsBehind u tags q × (get16 big u.mem q ≡ get16 big s.mem q))
              (some_inj pushed) (bytes, b, refl) in
          (tags, q, omega arith, omega arith, bytes', b', same)
      pushed-IsBehind (vlid ∷ vlids) s t tags q bytes b pushed =
          let room : 14 ≤ s.len = let f = b.fits in let h = b.behind in omega arith in
          let (s1, on, rest) =
            push_all-cases e adjust_head kernel vlid vlids s t room bytes pushed in
          let b1 = IsTagged-IsBehind vlid s s1 tags q on b in
          let (tags', q', n, p, bytes', b', same) =
            pushed-IsBehind vlids s1 t (suc tags) (q + 4) on.bytes b1 rest in
          (
            tags',
            q',
            omega arith,
            omega arith,
            bytes',
            b',
            same ∙ get16-shift s.mem s1.mem s.len s1.len on.len on.rest q b.behind,
          )

      -- Pushed tags hide nothing: behind them, and behind the tags that the packet has already, parse_ethhdr
      -- finds the same type, as long as there are no more than five tags in all. This is for a packet
      -- with room for its headers, and for a kernel that moves its start as it documents.
      pub parse_ethhdr-push_all :
          (vlids : List ℕ) (s t : State T) (tags q : ℕ)
          → IsBytes s.mem
          → IsBehind s tags q
          → length vlids + tags ≤ vlan_max_depth
          → push_all e adjust_head vlids s ≡ some t
          → (parse_ethhdr e 0 s ≡ ok (some (get16 big s.mem q, q + 2)) s)
            × (parse_ethhdr e 0 t ≡ ok (some (get16 big s.mem q, q + 4 * length vlids + 2)) t)
      parse_ethhdr-push_all vlids s t tags q bytes b le pushed =
          let (tags', q', n, p, bytes', b', same) =
            pushed-IsBehind vlids s t tags q bytes b pushed in
          (
            parse-IsBehind s tags q bytes b (omega arith),
            parse-IsBehind t tags' q' bytes' b' (omega arith)
                ∙ ap₂ (λ (ty x : ℕ). ok (some (ty, x + 2)) t) same p,
          )
