-- ===== src/PinnedMaps/Entries.antt =====
-- What the entries of pinned_maps hold after bpf_prog_load_xattr_maps.
use mathlib.Core.List.{Memᴰ}
use syncookie_xdp.Prelude.{
  same_text, ℕ, ◌≡◌, ◌⊎◌, inl, inr, refl, Bool, true, false, not, ◌&&◌, ◌||◌, List, [], ◌∷◌,
  Bool-cases, if◌then◌else◌, arith, ap₂, sym, subst, ◌∙◌,
}
use syncookie_xdp.Prelude.Int.{ℤ, is_pos}
use syncookie_xdp.PinnedMaps.{
  LibbpfMaps, BpfPinnedMap, is_positive, is_minus_one, open_entry, open_entries, open_maps, no_map,
}
use syncookie_xdp.PinnedMaps.Pairs.{Pairs, none_left, both, compose, every}
use syncookie_xdp.PinnedMaps.Quiet.{IsQuiet, open_entry-same, open_entries-same}

module _ {ℓ} {K : Type ℓ} (lib : LibbpfMaps K) (openable : List ℕ → K → Bool) where
  -- Some map has a name.
  abbrev pub has_name : List ℕ → List ℕ → Bool
  has_name [] name = false
  has_name (m ∷ ms) name = same_text (lib.name m) name || has_name ms name

  -- What libbpf documents of bpf_obj_get: it gives a descriptor where the file can be opened. The
  -- calls before the load write no file.
  pub record IsFiles : Type ℓ where
    pub opens : (path : List ℕ) (k : K) → is_positive (lib.obj_get path k).0 ≡ openable path k
    pub open_xattr-openable :
        (file : List ℕ) (t : ℕ) (path : List ℕ) (k : K)
        → openable path (lib.open_xattr file t k).1 ≡ openable path k
    pub quiet : (path : List ℕ) → IsQuiet lib (openable path)

  -- A descriptor that opening the file of an entry gave.
  abbrev pub IsReused : BpfPinnedMap → ℤ → Type ℓ
  IsReused p fd =
      (is_positive fd ≡ true) × ((before : K) × (fd ≡ (lib.obj_get p.filename before).0))

  -- What the loops before the load do with an entry, by whether a map has its name.
  pub record IsTried (k : K) (found : List ℕ → Bool) (p q : BpfPinnedMap) : Type ℓ where
    pub same_name : q.name ≡ p.name
    pub same_filename : q.filename ≡ p.filename
    pub descriptor :
        ((found p.name && openable p.filename k ≡ true) × IsReused p q.map_fd)
        ⊎ ((found p.name && openable p.filename k ≡ false) × (q.map_fd ≡ p.map_fd))

  -- A map with the name of an entry was pinned at its file, and the entry has the descriptor.
  pub record IsPinned (ms : List ℕ) (p : BpfPinnedMap) (fd : ℤ) : Type ℓ where
    pub m : ℕ
    pub listed : Memᴰ m ms
    pub named : same_text (lib.name m) p.name ≡ true
    pub before : K
    pub pinned : is_pos (lib.pin m p.filename before).0 0 ≡ true
    pub descriptor : fd ≡ lib.map_fd_of m (lib.pin m p.filename before).1

  -- What the loop after the load does with an entry.
  pub record IsPassed (ms : List ℕ) (p q : BpfPinnedMap) : Type ℓ where
    pub same_name : q.name ≡ p.name
    pub same_filename : q.filename ≡ p.filename
    pub descriptor :
        (q.map_fd ≡ p.map_fd) ⊎ ((is_minus_one p.map_fd ≡ true) × IsPinned ms p q.map_fd)

  -- An entry after the load: the descriptor of its file, if a map has its name and the file could
  -- be opened; else that of such a map that was pinned at its file, or -1.
  pub record IsSettled (k : K) (ms : List ℕ) (p q : BpfPinnedMap) : Type ℓ where
    pub same_name : q.name ≡ p.name
    pub same_filename : q.filename ≡ p.filename
    pub descriptor :
        ((has_name ms p.name && openable p.filename k ≡ true) × IsReused p q.map_fd)
        ⊎ ((has_name ms p.name && openable p.filename k ≡ false)
            × ((q.map_fd ≡ no_map) ⊎ IsPinned ms p q.map_fd))

  abbrev pub Same : K → K → Type 0
  Same k k' = (path : List ℕ) → openable path k' ≡ openable path k

  module _ (laws : IsFiles) (k : K) where
    open_entry-IsTried :
        (m : ℕ) (p : BpfPinnedMap) (k1 : K)
        → Same k k1
        → IsTried k (same_text (lib.name m)) p (open_entry lib m p k1).0
    unfolding open_entry
    open_entry-IsTried m p k1 same =
        let opened = laws.opens p.filename k1 ∙ same p.filename in
        elim (Bool-cases (same_text (lib.name m) p.name)) [
          | inl named ↦ elim (Bool-cases (is_positive (lib.obj_get p.filename k1).0)) [
            | inl there ↦
                rw (named, open_entry)
                  (rw there (record {
                    same_name = refl;
                    same_filename = refl;
                    descriptor = inl (ground arith, (there, (k1, refl)));
                  }))
            | inr missing ↦
                rw (named, open_entry)
                  (rw missing (record {
                    same_name = refl;
                    same_filename = refl;
                    descriptor = inr (ground arith, refl);
                  }))
          ]
          | inr other ↦
              rw (other, open_entry)
                (record {
                  same_name = refl;
                  same_filename = refl;
                  descriptor = inr (ground arith, refl);
                })
        ]

    open_entries-IsTried :
        (m : ℕ) (ps : List BpfPinnedMap) (k1 : K)
        → Same k k1
        → Pairs (IsTried k (same_text (lib.name m))) ps (open_entries lib m ps k1).0
    unfolding open_entries
    open_entries-IsTried m [] k1 same = none_left
    open_entries-IsTried m (p ∷ ps) k1 same = both (open_entry-IsTried m p k1 same) (
        open_entries-IsTried m ps (open_entry lib m p k1).1
          (λ path. open_entry-same lib (openable path) (laws.quiet path) m p k1 ∙ same path))

    IsTried-trans :
        (found found' : List ℕ → Bool) (p q r : BpfPinnedMap)
        → IsTried k found p q
        → IsTried k found' q r
        → IsTried k (λ name. found name || found' name) p r
    IsTried-trans found found' p q r a b =
        let other : found' q.name && openable q.filename k
            ≡ found' p.name && openable p.filename k =
          ap₂ (λ n f. found' n && openable f k) a.same_name a.same_filename in
        record {
          same_name = b.same_name ∙ a.same_name;
          same_filename = b.same_filename ∙ a.same_filename;
          descriptor = elim b.descriptor [
            | inl (open2, there) ↦ inl (
              ground (arith, other),
              subst
                  (λ (f : List ℕ).
                    (is_positive r.map_fd ≡ true)
                    × ((before : K) × (r.map_fd ≡ (lib.obj_get f before).0)))
                  a.same_filename there,
            )
            | inr (closed2, unchanged) ↦ elim a.descriptor [
              | inl (open1, there) ↦ inl (ground arith, subst (IsReused p) (sym unchanged) there)
              | inr (closed1, still) ↦ inr (ground (arith, other), unchanged ∙ still)
            ]
          ];
        }

    pub open_maps-IsTried :
        (n : ℕ) (ms : List ℕ) (ps : List BpfPinnedMap) (k1 : K)
        → Same k k1
        → Pairs (IsTried k (has_name ms)) ps (open_maps lib n ms ps k1).0
    unfolding open_maps
    open_maps-IsTried n [] ps k1 same =
        every (IsTried k (has_name []))
          (λ p. record { same_name = refl; same_filename = refl; descriptor = inr (refl, refl) }) ps
    open_maps-IsTried n (m ∷ ms) ps k1 same =
        let k2 = if not (lib.is_offload_neutral m) then lib.set_map_ifindex m n k1 else k1 in
        let same2 : Same k k2 = elim (Bool-cases (lib.is_offload_neutral m)) [
          | inl neutral ↦ rw neutral same
          | inr bound ↦ rw bound (λ path. (laws.quiet path).set_map_ifindex-same m n k1 ∙ same path)
        ] in
        let r = open_entries lib m ps k2 in
        compose (λ p q s a b. IsTried-trans (same_text (lib.name m)) (has_name ms) p q s a b)
          (open_entries-IsTried m ps k2 same2)
          (open_maps-IsTried n ms r.0 r.1
            (λ path. open_entries-same lib (openable path) (laws.quiet path) m ps k2 ∙ same2 path))
