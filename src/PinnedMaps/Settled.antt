-- ===== src/PinnedMaps/Settled.antt =====
-- What bpf_prog_load_xattr_maps leaves in the entries of pinned_maps.
use syncookie_xdp.Prelude.{
  ℕ, ◌≡◌, inl, inr, Bool, true, some, List, ◌==◌, Bool-cases, Option-cases, sym, subst, ◌∙◌,
}
use syncookie_xdp.Prelude.Int.{ℤ, pos, negsuc, is_pos}
use syncookie_xdp.PinnedMaps.{
  LibbpfMaps, BpfPinnedMap, BpfProgLoadAttrMaps, Loaded, undefined, fails, succeeds, is_positive,
  is_minus_one, is_err_or_null, set_programs, first, open_maps, load_and_pin, with_object,
  bpf_prog_load_xattr_maps, reset, reset_all,
}
use syncookie_xdp.PinnedMaps.Pairs.{Pairs, compose, after_reset}
use syncookie_xdp.PinnedMaps.Entries.{
  has_name, IsFiles, IsTried, IsPassed, IsSettled, IsReused, Same, open_maps-IsTried,
}
use syncookie_xdp.PinnedMaps.Quiet.{set_programs-same}
use syncookie_xdp.PinnedMaps.Passed.{IsPinned-same, pin_maps-IsPassed}

not_both : (fd : ℤ) → is_positive fd ≡ true → is_minus_one fd ≡ true → ⊥
not_both (pos n) a b = cc
not_both (negsuc n) a b = cc

module _ {ℓ} {K : Type ℓ} (lib : LibbpfMaps K) (openable : List ℕ → K → Bool) where
  settle :
      (k : K) (ms : List ℕ) (p q r : BpfPinnedMap)
      → IsTried lib openable k (has_name lib openable ms) (reset p) q
      → IsPassed lib openable ms q r
      → IsSettled lib openable k ms p r
  settle k ms p q r a b = record {
    same_name = b.same_name ∙ a.same_name;
    same_filename = b.same_filename ∙ a.same_filename;
    descriptor = elim a.descriptor [
      | inl (opened, there) ↦ elim b.descriptor [
        | inl unchanged ↦ inl (opened, subst (IsReused lib openable p) (sym unchanged) there)
        | inr (missing, pinned) ↦ absurd (not_both q.map_fd there.0 missing)
      ]
      | inr (closed, blank) ↦ elim b.descriptor [
        | inl unchanged ↦ inr (closed, inl (unchanged ∙ blank))
        | inr (missing, pinned) ↦ inr (
          closed,
          inr (IsPinned-same lib openable ms p q r.map_fd a.same_name a.same_filename pinned),
        )
      ]
    ];
  }

  abbrev AllSettled : K → List BpfPinnedMap → Loaded → Type ℓ
  AllSettled k qs undefined = Unit
  AllSettled k qs (fails err ps) = Unit
  AllSettled k qs (succeeds obj fd ps names) = Pairs (IsSettled lib openable k (lib.maps obj)) qs ps

  module _ (k : K) (obj : ℕ) (qs : List BpfPinnedMap) where
    load_and_pin-AllSettled :
        (ps : List BpfPinnedMap) (k1 : K)
        → Pairs (IsTried lib openable k (has_name lib openable (lib.maps obj))) (reset_all qs) ps
        → AllSettled k qs (load_and_pin lib obj ps k1).0
    unfolding load_and_pin
    load_and_pin-AllSettled ps k1 tried = elim (Bool-cases (first lib (lib.programs obj) == 0)) [
      | inl empty ↦ rw empty tt
      | inr some_program ↦ elim (Bool-cases (is_pos (lib.load obj k1).0 0)) [
        | inl ok ↦
            let loaded = (lib.load obj k1).1 in
            rw some_program (
              rw ok (
                compose (settle k (lib.maps obj))
                  (after_reset (IsTried lib openable k (has_name lib openable (lib.maps obj))) qs ps
                    tried)
                  (pin_maps-IsPassed lib openable (lib.maps obj) ps loaded)))
        | inr bad ↦ rw some_program (rw bad tt)
      ]
    ]

  with_object-AllSettled :
      IsFiles lib openable
      → (attr : BpfProgLoadAttrMaps) (obj : ℕ) (k k1 : K) → Same lib openable k k1
      → AllSettled k attr.pinned_maps (with_object lib attr obj k1).0
  unfolding with_object
  with_object-AllSettled laws attr obj k k1 same =
      let k2 = set_programs lib attr (lib.programs obj) k1 in
      let r = open_maps lib attr.ifindex (lib.maps obj) (reset_all attr.pinned_maps) k2 in
      load_and_pin-AllSettled k obj attr.pinned_maps r.0 r.1 (
        open_maps-IsTried lib openable laws k attr.ifindex (lib.maps obj)
          (reset_all attr.pinned_maps) k2
          (λ path.
            set_programs-same lib (openable path) (laws.quiet path) attr (lib.programs obj) k1
            ∙ same path))

  load-AllSettled :
      IsFiles lib openable
      → (attr : BpfProgLoadAttrMaps) (k : K)
      → AllSettled k attr.pinned_maps (bpf_prog_load_xattr_maps lib (some attr) k).0
  unfolding bpf_prog_load_xattr_maps
  load-AllSettled laws attr k = elim (Option-cases attr.file) [
    | inl missing ↦ rw missing tt
    | inr (file, there) ↦
        let r = lib.open_xattr file attr.prog_type k in
        elim (Bool-cases (is_err_or_null r.0)) [
          | inl bad ↦ rw there (rw bad tt)
          | inr good ↦ rw there (
              rw good (
                with_object-AllSettled laws attr r.0 k r.1
                  (λ path. laws.open_xattr-openable file attr.prog_type path k)))
        ]
  ]

  -- Where bpf_prog_load_xattr_maps succeeds, each entry of pinned_maps keeps its name and file. If a
  -- map of the object has its name and the file can be opened at the start, it has a descriptor above
  -- 0 that opening the file gave. Otherwise it has -1, or the descriptor of a map of its name that was
  -- pinned at its file. This is for a libbpf where bpf_obj_get gives a descriptor for the files that
  -- can be opened, which the calls before the load do not change.
  pub bpf_prog_load_xattr_maps-IsSettled :
      IsFiles lib openable
      → (attr : BpfProgLoadAttrMaps) (k : K) (obj : ℕ) (fd : ℤ) (ps : List BpfPinnedMap)
        (names : List (List ℕ))
      → (bpf_prog_load_xattr_maps lib (some attr) k).0 ≡ succeeds obj fd ps names
      → Pairs (IsSettled lib openable k (lib.maps obj)) attr.pinned_maps ps
  bpf_prog_load_xattr_maps-IsSettled laws attr k obj fd ps names e =
      subst (AllSettled k attr.pinned_maps) e (load-AllSettled laws attr k)
