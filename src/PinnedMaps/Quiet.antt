-- ===== src/PinnedMaps/Quiet.antt =====
-- What the calls of bpf_prog_load_xattr_maps between opening and loading the object leave alone.
use syncookie_xdp.Prelude.{ℕ, ◌≡◌, refl, inl, inr, List, [], ◌∷◌, Bool-cases, ◌∙◌, same_text}
use syncookie_xdp.Prelude.Int.{ℤ}
use syncookie_xdp.PinnedMaps.{
  LibbpfMaps, BpfPinnedMap, BpfProgLoadAttrMaps, is_positive, set_programs, open_entry,
  open_entries, open_maps,
}

module _ {ℓ ℓ'} {K : Type ℓ} {A : Type ℓ'} (lib : LibbpfMaps K) (seen : K → A) where
  -- Something that can be seen of the process and the kernel, and that these calls do not change.
  pub record IsQuiet : Type (ℓ ⊔ ℓ') where
    pub set_program_ifindex-same :
        (prog n : ℕ) (k : K) → seen (lib.set_program_ifindex prog n k) ≡ seen k
    pub set_type-same : (prog n : ℕ) (k : K) → seen (lib.set_type prog n k) ≡ seen k
    pub set_expected_attach_type-same :
        (prog n : ℕ) (k : K) → seen (lib.set_expected_attach_type prog n k) ≡ seen k
    pub set_map_ifindex-same : (m n : ℕ) (k : K) → seen (lib.set_map_ifindex m n k) ≡ seen k
    pub obj_get-same : (path : List ℕ) (k : K) → seen (lib.obj_get path k).1 ≡ seen k
    pub reuse_fd-same : (m : ℕ) (fd : ℤ) (k : K) → seen (lib.reuse_fd m fd k) ≡ seen k

  module _ (quiet : IsQuiet) where
    pub set_programs-same :
        (attr : BpfProgLoadAttrMaps) (progs : List ℕ) (k : K)
        → seen (set_programs lib attr progs k) ≡ seen k
    unfolding set_programs
    set_programs-same attr [] k = refl
    set_programs-same attr (prog ∷ progs) k =
        let k1 = lib.set_program_ifindex prog attr.ifindex k in
        let k2 = lib.set_type prog attr.prog_type k1 in
        set_programs-same attr progs
          (lib.set_expected_attach_type prog attr.expected_attach_type k2)
        ∙ quiet.set_expected_attach_type-same prog attr.expected_attach_type k2
        ∙ quiet.set_type-same prog attr.prog_type k1
        ∙ quiet.set_program_ifindex-same prog attr.ifindex k

    pub open_entry-same :
        (m : ℕ) (p : BpfPinnedMap) (k : K) → seen (open_entry lib m p k).1 ≡ seen k
    unfolding open_entry
    open_entry-same m p k =
        let got = quiet.obj_get-same p.filename k in
        let r = lib.obj_get p.filename k in
        elim (Bool-cases (same_text (lib.name m) p.name)) [
          | inl same ↦ elim (Bool-cases (is_positive r.0)) [
            | inl found ↦ rw same (rw found (quiet.reuse_fd-same m r.0 r.1 ∙ got))
            | inr missing ↦ rw same (rw missing got)
          ]
          | inr other ↦ rw other refl
        ]

    pub open_entries-same :
        (m : ℕ) (ps : List BpfPinnedMap) (k : K) → seen (open_entries lib m ps k).1 ≡ seen k
    unfolding open_entries
    open_entries-same m [] k = refl
    open_entries-same m (p ∷ ps) k =
        open_entries-same m ps (open_entry lib m p k).1 ∙ open_entry-same m p k

    pub open_maps-same :
        (n : ℕ) (ms : List ℕ) (ps : List BpfPinnedMap) (k : K)
        → seen (open_maps lib n ms ps k).1 ≡ seen k
    unfolding open_maps
    open_maps-same n [] ps k = refl
    open_maps-same n (m ∷ ms) ps k = elim (Bool-cases (lib.is_offload_neutral m)) [
      | inl neutral ↦
          let r = open_entries lib m ps k in
          rw (neutral, open_maps) (open_maps-same n ms r.0 r.1 ∙ open_entries-same m ps k)
      | inr bound ↦
          let k1 = lib.set_map_ifindex m n k in
          let r = open_entries lib m ps k1 in
          rw (bound, open_maps)
            (open_maps-same n ms r.0 r.1
              ∙ open_entries-same m ps k1
              ∙ quiet.set_map_ifindex-same m n k)
    ]
