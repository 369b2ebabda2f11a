-- ===== src/Loader/Elsewhere.antt =====
-- What the loader does to other devices than the one that it is called for.
use syncookie_xdp.Prelude.{
  ℕ, ◌≡◌, ◌≢◌, ◌∙◌, refl, ap, not, ◌&&◌, Option, some, List, ◌∷◌, ◌++◌, ◌==◌, if◌then◌else◌,
  Bool-cases, Option-cases, inl, inr, sym,
}
use syncookie_xdp.Prelude.Int.{ℤ, is_pos}
use syncookie_xdp.Attach.{
  Libbpf, no_fd, any_flag, hw_mode, update_if_noexist, other_mode, set_or_replace, xdp_link_attach,
  xdp_link_detach, is_eexist,
}
use syncookie_xdp.Loader.{
  LibbpfObjects, Config, choose, is_fd, Run, returns, exits, attach_program, load_bpf_object_file,
  load_bpf_and_xdp_attach, filename_string, pin_maps_in_bpf_object, after_load, main, snprintf,
  path_max, pin_basedir, map_name,
}
use syncookie_xdp.Loader.Attached.{IsPinning, pin_at-attached, main-unload, main-load}

module _ {ℓ} {K : Type ℓ} (lib : Libbpf K) (objects : LibbpfObjects K)
    (attached : ℕ → ℕ → K → Option ℕ) where
  -- What libbpf documents: bpf_set_link_xdp_fd is about one device, and loading an object attaches
  -- and detaches nothing.
  pub record IsApart : Type ℓ where
    pub set-apart :
        (i j : ℕ) (fd : ℤ) (flags flags' : ℕ) (k : K)
        → j ≢ i
        → attached j flags' (lib.set_link_xdp_fd i fd flags k).1 ≡ attached j flags' k
    pub load-apart :
        (file : List ℕ) (ifindex j flags : ℕ) (k : K)
        → attached j flags (objects.prog_load_xattr file ifindex k).1 ≡ attached j flags k

  module _ (apart : IsApart) (i j flags : ℕ) (other : j ≢ i) where
    abbrev seen : K → Option ℕ
    seen = attached j flags

    set_or_replace-seen :
        (xdp_flags : ℕ) (fd : ℤ) (k : K) → seen (set_or_replace lib i xdp_flags fd k).1 ≡ seen k
    unfolding set_or_replace
    set_or_replace-seen xdp_flags fd k =
        let r1 = lib.set_link_xdp_fd i fd xdp_flags k in
        let r2 = lib.set_link_xdp_fd i no_fd (other_mode xdp_flags) r1.1 in
        let one = apart.set-apart i j fd xdp_flags flags k other in
        let two = apart.set-apart i j no_fd (other_mode xdp_flags) flags r1.1 other ∙ one in
        elim (Bool-cases (is_eexist r1.0 && not (any_flag xdp_flags update_if_noexist))) [
          | inr kept ↦ rw kept one
          | inl replaces ↦ elim (Bool-cases (is_pos r2.0 0)) [
            | inr failed ↦ rw replaces (rw failed two)
            | inl gone ↦
                rw replaces (rw gone (apart.set-apart i j fd xdp_flags flags r2.1 other ∙ two))
          ]
        ]

    xdp_link_attach-seen :
        (xdp_flags : ℕ) (fd : ℤ) (k : K) → seen (xdp_link_attach lib i xdp_flags fd k).1 ≡ seen k
    unfolding xdp_link_attach
    xdp_link_attach-seen xdp_flags fd k = set_or_replace-seen xdp_flags fd k

    xdp_link_detach-seen :
        (xdp_flags expected : ℕ) (k : K)
        → seen (xdp_link_detach lib i xdp_flags expected k).1 ≡ seen k
    unfolding xdp_link_detach
    xdp_link_detach-seen xdp_flags expected k =
        let removed = apart.set-apart i j no_fd xdp_flags flags k other in
        let r = lib.get_link_xdp_id i xdp_flags k in
        elim (Bool-cases (is_pos r.0 0)) [
          | inr failed ↦ rw failed refl
          | inl found ↦ elim (Bool-cases (r.1 == 0)) [
            | inl absent ↦ rw found (rw absent refl)
            | inr there ↦ elim (Bool-cases (not (expected == 0) && not (r.1 == expected))) [
              | inl differs ↦ rw found (rw there (rw differs refl))
              | inr agrees ↦ rw found (rw there (rw agrees removed))
            ]
          ]
        ]

    attach_program-seen :
        (cfg : Config) (obj : ℕ) (k : K) → seen (attach_program lib objects i cfg obj k).1 ≡ seen k
    unfolding attach_program
    attach_program-seen cfg obj k =
        let prog = choose lib objects cfg obj in
        let fd = objects.program_fd prog in
        let done = xdp_link_attach-seen cfg.xdp_flags fd k in
        elim (Bool-cases (prog == 0)) [
          | inl a ↦ rw a refl
          | inr a ↦ elim (Bool-cases (is_fd lib objects fd)) [
            | inr b ↦ rw a (rw b refl)
            | inl b ↦ elim (Bool-cases ((xdp_link_attach lib i cfg.xdp_flags fd k).0 == 0)) [
              | inr c ↦ rw a (rw b (rw c done))
              | inl c ↦ rw a (rw b (rw c done))
            ]
          ]
        ]

    load_bpf_and_xdp_attach-seen :
        (cfg : Config) (k : K) → seen (load_bpf_and_xdp_attach lib objects i cfg k).1 ≡ seen k
    unfolding load_bpf_and_xdp_attach load_bpf_object_file
    load_bpf_and_xdp_attach-seen cfg k =
        let offload = if any_flag cfg.xdp_flags hw_mode then i else 0 in
        let loaded = load_bpf_object_file lib objects (filename_string cfg) offload k in
        let same = apart.load-apart (filename_string cfg) offload j flags k in
        elim (Bool-cases (loaded.0 == 0)) [
          | inl a ↦ rw a same
          | inr a ↦ rw a (attach_program-seen cfg loaded.0 loaded.1 ∙ same)
        ]

  module _ (pinning : IsPinning objects attached) (j flags : ℕ) where
    after_load-seen :
        (cfg : Config) (r : Run (ℕ × Config) × K)
        → attached j flags (after_load lib objects cfg r).1 ≡ attached j flags r.1
    unfolding after_load pin_maps_in_bpf_object
    after_load-seen cfg (exits code, k) = refl
    after_load-seen cfg (returns result, k) =
        pin_at-attached lib objects attached pinning result.0
          (snprintf path_max (pin_basedir ++ (47 ∷ cfg.ifname)))
          (snprintf path_max (pin_basedir ++ (47 ∷ (cfg.ifname ++ (47 ∷ map_name))))) j flags k

    -- The loader leaves alone what is attached to another device, whatever it exits with.
    pub main-elsewhere :
        IsApart
        → (cfg : Config) (k : K) → cfg.ifindex ≢ some j
        → attached j flags (main lib objects cfg k).1 ≡ attached j flags k
    unfolding main
    main-elsewhere apart cfg k other = elim (Option-cases cfg.ifindex) [
      | inl missing ↦ rw missing refl
      | inr (i, there) ↦
          let ne : j ≢ i = λ same. other (there ∙ ap (λ (n : ℕ). some n) (sym same)) in
          elim (Bool-cases cfg.do_unload) [
            | inl unload ↦
                ap (λ (r : ℕ × K). attached j flags r.1)
                  (main-unload lib objects cfg k i there unload)
                ∙ xdp_link_detach-seen apart i j flags ne cfg.xdp_flags 0 k
            | inr load ↦
                ap (λ (r : ℕ × K). attached j flags r.1) (main-load lib objects cfg k i there load)
                ∙ after_load-seen cfg (load_bpf_and_xdp_attach lib objects i cfg k)
                ∙ load_bpf_and_xdp_attach-seen apart i j flags ne cfg k
          ]
    ]
