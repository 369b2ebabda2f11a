-- ===== src/Loader/Attached.antt =====
-- What the loader leaves attached when it exits with 0.
use syncookie_xdp.Prelude.{
  ℕ, ◌≡◌, ◌≢◌, ◌⊎◌, inl, inr, true, false, refl, ◌∷◌, ◌++◌, ap, sym, subst, arith, ◌==◌, ◌∙◌,
  Option, none, some, List, if◌then◌else◌, Bool-cases,
}
use syncookie_xdp.Prelude.Int.{ℤ, pos, is_pos, is_pos_iff}
use syncookie_xdp.Attach.{
  Libbpf, exit_ok, xdp_link_attach, xdp_link_detach, any_flag, hw_mode, modes,
}
use syncookie_xdp.Attach.Kernel.{IsLink, xdp_link_attach-zero, xdp_link_detach-IsDetached}
use syncookie_xdp.Loader.{
  LibbpfObjects, Config, choose, is_fd, Run, returns, exits, attach_program, load_bpf_object_file,
  load_bpf_and_xdp_attach, filename_string, pin_at, pin_maps_in_bpf_object, after_load, main,
  snprintf, path_max, pin_basedir, map_name,
}

device : (o : Option ℕ) → (o ≡ none) ⊎ ((i : ℕ) × (o ≡ some i))
device none = inl refl
device (some i) = inr (i, refl)

-- The three ways through main.
module _ {ℓ} {K : Type ℓ} (lib : Libbpf K) (objects : LibbpfObjects K) where
  main-missing : (cfg : Config) (k : K) → cfg.ifindex ≡ none → (main lib objects cfg k).0 ≡ 2
  unfolding main
  main-missing cfg k e = rw e refl

  pub main-unload :
      (cfg : Config) (k : K) (i : ℕ)
      → cfg.ifindex ≡ some i
      → cfg.do_unload ≡ true
      → main lib objects cfg k ≡ xdp_link_detach lib i cfg.xdp_flags 0 k
  unfolding main
  main-unload cfg k i e u = rw e (rw u refl)

  pub main-load :
      (cfg : Config) (k : K) (i : ℕ)
      → cfg.ifindex ≡ some i
      → cfg.do_unload ≡ false
      → main lib objects cfg k
        ≡ after_load lib objects cfg (load_bpf_and_xdp_attach lib objects i cfg k)
  unfolding main
  main-load cfg k i e u = rw e (rw u refl)

module _ {ℓ} {K : Type ℓ} (objects : LibbpfObjects K) (attached : ℕ → ℕ → K → Option ℕ) where
  -- Pinning is about files: it attaches and detaches nothing.
  pub record IsPinning : Type ℓ where
    pub unpin-attached :
        (obj : ℕ) (dir : List ℕ) (i flags : ℕ) (k : K)
        → attached i flags (objects.unpin_maps obj dir k).1 ≡ attached i flags k
    pub pin-attached :
        (obj : ℕ) (dir : List ℕ) (i flags : ℕ) (k : K)
        → attached i flags (objects.pin_maps obj dir k).1 ≡ attached i flags k

module _ {ℓ} {K : Type ℓ} (lib : Libbpf K) (objects : LibbpfObjects K)
    (attached : ℕ → ℕ → K → Option ℕ) (pinning : IsPinning objects attached) where
  pub pin_at-attached :
      (obj : ℕ) (dir file : List ℕ) (i flags : ℕ) (k : K)
      → attached i flags (pin_at lib objects obj dir file k).1 ≡ attached i flags k
  unfolding pin_at
  pin_at-attached obj dir file i flags k =
      let u = pinning.unpin-attached obj dir i flags k in
      let p = pinning.pin-attached obj dir i flags in
      elim (Bool-cases (objects.access file k)) [
        | inl a ↦ elim (Bool-cases (is_pos (objects.unpin_maps obj dir k).0 0)) [
          | inl b ↦ rw a (rw b (p (objects.unpin_maps obj dir k).1 ∙ u))
          | inr b ↦ rw a (rw b u)
        ]
        | inr a ↦ rw a (p k)
      ]

module _ {ℓ} {K : Type ℓ} (lib : Libbpf K) (objects : LibbpfObjects K)
    (attached : ℕ → ℕ → K → Option ℕ) (program : ℤ → Option ℕ)
    (link : IsLink lib attached program) where
  -- What bpf_prog_load_xattr gives for the file of a configuration: for the device itself if the flags
  -- ask for the hardware, else for none.
  abbrev pub loaded_file : Config → ℕ → K → ℤ × ℕ
  loaded_file cfg i k =
      (objects.prog_load_xattr (filename_string cfg)
        (if any_flag cfg.xdp_flags hw_mode then i else 0) k).0

  -- The program of a configuration is attached to a device: that of its section in the object that was
  -- loaded from its file, on the kernel `k` before.
  pub record IsRunning (cfg : Config) (i : ℕ) (k k' : K) : Type ℓ where
    pub obj : ℕ
    pub obj-nonzero : obj ≢ 0
    pub loaded : loaded_file cfg i k ≡ (pos 0, obj)
    pub chosen : choose lib objects cfg obj ≢ 0
    pub there :
        attached i cfg.xdp_flags k' ≡ program (objects.program_fd (choose lib objects cfg obj))

  -- What a function of the loader gives: another exit code than 0, or a program that is attached.
  abbrev IsRunningAfter : Config → ℕ → K → Run (ℕ × Config) × K → Type ℓ
  IsRunningAfter cfg i k (exits code, k') = (code ≢ 0) × Unit {ℓ}
  IsRunningAfter cfg i k (returns result, k') = IsRunning cfg i k k'

  attach-zero :
      (i flags : ℕ) (fd : ℤ) (k : K)
      → ((xdp_link_attach lib i flags fd k).0 == 0) ≡ true
      → attached i flags (xdp_link_attach lib i flags fd k).1 ≡ program fd
  attach-zero i flags fd k h =
      xdp_link_attach-zero lib attached program link i flags k fd (ground arith)

  attach_program-IsRunningAfter :
      (i : ℕ) (cfg : Config) (obj : ℕ) (k0 k : K)
      → obj ≢ 0
      → loaded_file cfg i k0 ≡ (pos 0, obj)
      → IsRunningAfter cfg i k0 (attach_program lib objects i cfg obj k)
  unfolding attach_program
  attach_program-IsRunningAfter i cfg obj k0 k nonzero from_file =
      let prog = choose lib objects cfg obj in
      let fd = objects.program_fd prog in
      elim (Bool-cases (prog == 0)) [
        | inl a ↦ rw a (omega arith, tt)
        | inr a ↦ elim (Bool-cases (is_fd lib objects fd)) [
          | inr b ↦ rw a (rw b (omega arith, tt))
          | inl b ↦ elim (Bool-cases ((xdp_link_attach lib i cfg.xdp_flags fd k).0 == 0)) [
            | inr c ↦ rw a (rw b (rw c (ground arith, tt)))
            | inl c ↦ rw a (
                rw b (
                  rw c (record {
                    obj = obj;
                    obj-nonzero = nonzero;
                    loaded = from_file;
                    chosen = ground arith;
                    there = attach-zero i cfg.xdp_flags fd k c;
                  })))
          ]
        ]
      ]

  object-loaded :
      (cfg : Config) (i : ℕ) (k : K)
      → ((load_bpf_object_file lib objects
            (filename_string cfg)
            (if any_flag cfg.xdp_flags hw_mode then i else 0)
            k).0
          == 0)
        ≡ false
      → loaded_file cfg i k ≡ (
        pos 0,
        (load_bpf_object_file lib objects
            (filename_string cfg)
            (if any_flag cfg.xdp_flags hw_mode then i else 0)
            k).0,
      )
  unfolding load_bpf_object_file
  object-loaded cfg i k h = elim (Bool-cases (is_pos (loaded_file cfg i k).0 0)) [
    | inl ok ↦
        rw ok (
          ap (λ (e : ℤ). (e, (loaded_file cfg i k).1))
            ((is_pos_iff (loaded_file cfg i k).0 0).0 ok))
    | inr failed ↦ absurd (let zero : (0 == 0) ≡ false = rw failed at h in cc)
  ]

  load-IsRunningAfter :
      (i : ℕ) (cfg : Config) (k : K)
      → IsRunningAfter cfg i k (load_bpf_and_xdp_attach lib objects i cfg k)
  unfolding load_bpf_and_xdp_attach
  load-IsRunningAfter i cfg k =
      let offload = if any_flag cfg.xdp_flags hw_mode then i else 0 in
      let loaded = load_bpf_object_file lib objects (filename_string cfg) offload k in
      elim (Bool-cases (loaded.0 == 0)) [
        | inl a ↦ rw a (omega arith, tt)
        | inr a ↦ rw a (
            attach_program-IsRunningAfter i cfg loaded.0 k loaded.1 (ground arith)
              (object-loaded cfg i k a))
      ]

  module _ (pinning : IsPinning objects attached) where
    after_load-IsRunning :
        (cfg : Config) (i : ℕ) (k0 : K) (outcome : Run (ℕ × Config) × K)
        → IsRunningAfter cfg i k0 outcome
        → (after_load lib objects cfg outcome).0 ≡ exit_ok
        → IsRunning cfg i k0 (after_load lib objects cfg outcome).1
    unfolding after_load pin_maps_in_bpf_object
    after_load-IsRunning cfg i k0 (exits code, k) (nonzero, unit) h = absurd (nonzero h)
    after_load-IsRunning cfg i k0 (returns result, k) running h =
        let dir = snprintf path_max (pin_basedir ++ (47 ∷ cfg.ifname)) in
        let file = snprintf path_max (pin_basedir ++ (47 ∷ (cfg.ifname ++ (47 ∷ map_name)))) in
        record {
          obj = running.obj;
          obj-nonzero = running.obj-nonzero;
          loaded = running.loaded;
          chosen = running.chosen;
          there =
              pin_at-attached lib objects attached pinning result.0 dir file i cfg.xdp_flags k
              ∙ running.there;
        }

    -- No program is left in the mode of the flags; or these give no mode, and nothing has changed.
    abbrev pub IsUnloaded : ℕ → ℕ → K → K → Type ℓ
    IsUnloaded i flags k k' =
        (attached i flags k' ≡ none) ⊎ ((any_flag flags modes ≡ false) × (k' ≡ k))

    abbrev pub IsDone : Config → K → ℕ × K → Type ℓ
    IsDone cfg k r =
        (i : ℕ) × ((cfg.ifindex ≡ some i)
          × (((cfg.do_unload ≡ false) × IsRunning cfg i k r.1)
              ⊎ ((cfg.do_unload ≡ true) × IsUnloaded i cfg.xdp_flags k r.1)))

    detached :
        (i flags : ℕ) (k : K)
        → (xdp_link_detach lib i flags 0 k).0 ≡ exit_ok
        → IsUnloaded i flags k (xdp_link_detach lib i flags 0 k).1
    detached i flags k h = elim (xdp_link_detach-IsDetached lib attached program link i flags k 0) [
      | inl (code, inl (gone, rest)) ↦ inl gone
      | inl (code, inr unchanged) ↦ inr unchanged
      | inr (inl (code, rest)) ↦ absurd (omega arith)
      | inr (inr (code, rest)) ↦ absurd (omega arith)
    ]

    -- When the loader exits with 0, the program of the section that was asked for, or else the first
    -- of the object that was loaded from the file, is attached to the device in the mode of the flags;
    -- or, with --unload, nothing is, or the flags give no mode and nothing has changed. This is for a
    -- libbpf that does what it documents, and pinning that leaves alone what is attached.
    pub main-IsDone :
        (cfg : Config) (k : K)
        → (main lib objects cfg k).0 ≡ exit_ok
        → IsDone cfg k (main lib objects cfg k)
    main-IsDone cfg k h = elim (device cfg.ifindex) [
      | inl e ↦ let missing = main-missing lib objects cfg k e in absurd (omega arith)
      | inr (i, e) ↦ elim (Bool-cases cfg.do_unload) [
        | inl u ↦
            let same = main-unload lib objects cfg k i e u in
            let code = sym (ap (λ (r : ℕ × K). r.0) same) ∙ h in
            (
              i,
              (
                e,
                inr (
                  u,
                  subst (λ (r : ℕ × K). IsUnloaded i cfg.xdp_flags k r.1) (sym same)
                      (detached i cfg.xdp_flags k code),
                ),
              ),
            )
        | inr u ↦
            let same = main-load lib objects cfg k i e u in
            let code = sym (ap (λ (r : ℕ × K). r.0) same) ∙ h in
            (
              i,
              (
                e,
                inl (
                  u,
                  subst (λ (r : ℕ × K). IsRunning cfg i k r.1) (sym same)
                      (after_load-IsRunning cfg i k (load_bpf_and_xdp_attach lib objects i cfg k)
                        (load-IsRunningAfter i cfg k) code),
                ),
              ),
            )
      ]
    ]
