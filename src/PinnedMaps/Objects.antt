-- ===== src/PinnedMaps/Objects.antt =====
-- bpf_prog_load_xattr_maps and the objects that are open.
use syncookie_xdp.Prelude.{
  same_text, ℕ, ◌≡◌, ◌≢◌, inl, inr, refl, Bool, true, false, Option, none, some, List, [], ◌∷◌,
  ◌==◌, Bool-cases, Option-cases, arith, sym, subst, ◌∙◌,
}
use syncookie_xdp.Prelude.Int.{is_pos}
use syncookie_xdp.PinnedMaps.{
  LibbpfMaps, BpfPinnedMap, BpfProgLoadAttrMaps, Loaded, undefined, fails, succeeds, is_minus_one,
  is_err_or_null, set_programs, first, open_maps, pin_entry, pin_entries, pin_maps, load_and_pin,
  with_object, bpf_prog_load_xattr_maps, reset_all,
}
use syncookie_xdp.PinnedMaps.Quiet.{IsQuiet, set_programs-same, open_maps-same}

module _ {ℓ} {K : Type ℓ} (lib : LibbpfMaps K) (is_open : ℕ → K → Bool) where
  -- What libbpf documents of its calls and the objects: the open call opens the object whose pointer
  -- it gives, and none with an error, closing closes it, and the other calls open and close none.
  pub record IsObjects : Type ℓ where
    pub open_same :
        (file : List ℕ) (t : ℕ) (k : K) (o : ℕ)
        → o ≢ (lib.open_xattr file t k).0
        → is_open o (lib.open_xattr file t k).1 ≡ is_open o k
    pub open_new :
        (file : List ℕ) (t : ℕ) (k : K)
        → is_err_or_null (lib.open_xattr file t k).0 ≡ false
        → (is_open (lib.open_xattr file t k).0 k ≡ false)
          × (is_open (lib.open_xattr file t k).0 (lib.open_xattr file t k).1 ≡ true)
    pub open_failed :
        (file : List ℕ) (t : ℕ) (k : K) (o : ℕ)
        → is_err_or_null (lib.open_xattr file t k).0 ≡ true
        → is_open o (lib.open_xattr file t k).1 ≡ is_open o k
    pub close_same : (obj o : ℕ) (k : K) → o ≢ obj → is_open o (lib.close obj k) ≡ is_open o k
    pub close_closed : (obj : ℕ) (k : K) → is_open obj (lib.close obj k) ≡ false
    pub quiet : (o : ℕ) → IsQuiet lib (is_open o)
    pub load-open : (obj o : ℕ) (k : K) → is_open o (lib.load obj k).1 ≡ is_open o k
    pub pin-open :
        (m : ℕ) (path : List ℕ) (o : ℕ) (k : K) → is_open o (lib.pin m path k).1 ≡ is_open o k

  module _ (laws : IsObjects) (o : ℕ) where
    pin_entry-open :
        (m : ℕ) (p : BpfPinnedMap) (k : K) → is_open o (pin_entry lib m p k).1 ≡ is_open o k
    unfolding pin_entry
    pin_entry-open m p k =
        let pinned = laws.pin-open m p.filename o k in
        elim (Bool-cases (same_text (lib.name m) p.name)) [
          | inl same ↦ elim (Bool-cases (is_minus_one p.map_fd)) [
            | inl missing ↦ elim (Bool-cases (is_pos (lib.pin m p.filename k).0 0)) [
              | inl ok ↦ rw same (rw missing (rw ok pinned))
              | inr bad ↦ rw same (rw missing (rw bad pinned))
            ]
            | inr there ↦ rw same (rw there refl)
          ]
          | inr other ↦ rw other refl
        ]

    pin_entries-open :
        (m : ℕ) (ps : List BpfPinnedMap) (k : K)
        → is_open o (pin_entries lib m ps k).1 ≡ is_open o k
    unfolding pin_entries
    pin_entries-open m [] k = refl
    pin_entries-open m (p ∷ ps) k =
        pin_entries-open m ps (pin_entry lib m p k).1 ∙ pin_entry-open m p k

    pin_maps-open :
        (ms : List ℕ) (ps : List BpfPinnedMap) (k : K)
        → is_open o (pin_maps lib ms ps k).1 ≡ is_open o k
    unfolding pin_maps
    pin_maps-open [] ps k = refl
    pin_maps-open (m ∷ ms) ps k =
        let k1 = pin_entries lib m ps k in pin_maps-open ms k1.0 k1.1 ∙ pin_entries-open m ps k

  -- Which objects are open at the end, by those that were open before: after an error the same, and
  -- otherwise the one that the function gives besides, which was not open.
  abbrev pub IsBalanced : K → Loaded → K → Type 0
  IsBalanced k undefined k' = Unit
  IsBalanced k (fails err ps) k' = (o : ℕ) → is_open o k' ≡ is_open o k
  IsBalanced k (succeeds obj fd ps names) k' =
      (is_open obj k ≡ false)
      × ((is_open obj k' ≡ true) × ((o : ℕ) → o ≢ obj → is_open o k' ≡ is_open o k))

  module _ (laws : IsObjects) (k : K) (obj : ℕ) (new : is_open obj k ≡ false) where
    -- An object was opened that was not open at the start.
    abbrev IsOpened : K → Type 0
    IsOpened k' = (is_open obj k' ≡ true) × ((o : ℕ) → o ≢ obj → is_open o k' ≡ is_open o k)

    closed : (k' : K) → IsOpened k' → (o : ℕ) → is_open o (lib.close obj k') ≡ is_open o k
    closed k' (here, others) o = elim (Bool-cases (o == obj)) [
      | inl same ↦
          subst (λ (j : ℕ). is_open j (lib.close obj k') ≡ is_open j k) (ground arith)
            (laws.close_closed obj k' ∙ sym new)
      | inr other ↦ let ne : o ≢ obj = ground arith in laws.close_same obj o k' ne ∙ others o ne
    ]

    kept : (k1 k2 : K) → ((o : ℕ) → is_open o k2 ≡ is_open o k1) → IsOpened k1 → IsOpened k2
    kept k1 k2 same (here, others) = (same obj ∙ here, λ o ne. same o ∙ others o ne)

    load_and_pin-IsBalanced :
        (ps : List BpfPinnedMap) (k' : K)
        → IsOpened k'
        → IsBalanced k (load_and_pin lib obj ps k').0 (load_and_pin lib obj ps k').1
    unfolding load_and_pin
    load_and_pin-IsBalanced ps k' opened =
        let k1 = (lib.load obj k').1 in
        let loaded = kept k' k1 (λ o. laws.load-open obj o k') opened in
        elim (Bool-cases (first lib (lib.programs obj) == 0)) [
          | inl empty ↦ rw empty (closed k' opened)
          | inr some_program ↦ elim (Bool-cases (is_pos (lib.load obj k').0 0)) [
            | inl ok ↦ rw some_program (
                rw ok (
                  new,
                  kept k1 (pin_maps lib (lib.maps obj) ps k1).1
                      (λ o. pin_maps-open laws o (lib.maps obj) ps k1) loaded,
                ))
            | inr bad ↦ rw some_program (rw bad (closed k1 loaded))
          ]
        ]

    with_object-IsBalanced :
        (attr : BpfProgLoadAttrMaps) (k' : K)
        → IsOpened k'
        → IsBalanced k (with_object lib attr obj k').0 (with_object lib attr obj k').1
    unfolding with_object
    with_object-IsBalanced attr k' opened =
        let k1 = set_programs lib attr (lib.programs obj) k' in
        let r = open_maps lib attr.ifindex (lib.maps obj) (reset_all attr.pinned_maps) k1 in
        load_and_pin-IsBalanced r.0 r.1 (
          kept k' r.1
            (λ o.
              open_maps-same lib (is_open o) (laws.quiet o) attr.ifindex (lib.maps obj)
                (reset_all attr.pinned_maps) k1
              ∙ set_programs-same lib (is_open o) (laws.quiet o) attr (lib.programs obj) k')
            opened)

  -- bpf_prog_load_xattr_maps leaks no object: after an error the objects are open that were open
  -- before, and without one exactly the object that it gives besides, which was not open. This is for a
  -- libbpf whose calls open and close objects as it documents, and it says nothing of NULL for
  -- `attr`, where C does not say what happens.
  pub bpf_prog_load_xattr_maps-IsBalanced :
      IsObjects
      → (attr : Option BpfProgLoadAttrMaps) (k : K)
      → IsBalanced k (bpf_prog_load_xattr_maps lib attr k).0 (bpf_prog_load_xattr_maps lib attr k).1
  unfolding bpf_prog_load_xattr_maps
  bpf_prog_load_xattr_maps-IsBalanced laws none k = tt
  bpf_prog_load_xattr_maps-IsBalanced laws (some attr) k = elim (Option-cases attr.file) [
    | inl missing ↦ rw missing (λ o. refl)
    | inr (file, there) ↦
        let r = lib.open_xattr file attr.prog_type k in
        elim (Bool-cases (is_err_or_null r.0)) [
          | inl bad ↦ rw there (rw bad (λ o. laws.open_failed file attr.prog_type k o bad))
          | inr good ↦
              let (fresh, now) = laws.open_new file attr.prog_type k good in
              rw there (
                rw good (
                  with_object-IsBalanced laws k r.0 fresh attr r.1
                    (now, λ o ne. laws.open_same file attr.prog_type k o ne)))
        ]
  ]
