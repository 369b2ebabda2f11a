-- ===== src/StatsProgram/AfterLoader.antt =====
-- loader/xdp_stats.c on a device for which loader/xdp_loader.c has run.
use syncookie_xdp.Prelude.{
  ℕ, zero, suc, ◌<◌, ◌≡◌, ◌≢◌, ◌∙◌, refl, ap, sym, subst, true, false, not, Option, some, List, [],
  ◌∷◌, ◌++◌, ◌==◌, if◌then◌else◌, Bool-cases, inl, inr, arith, length,
}
use syncookie_xdp.Prelude.Int.{ℤ, pos, is_pos}
use syncookie_xdp.Attach.{
  Libbpf, any_flag, hw_mode, xdp_link_attach, is_negative, exit_ok, exit_fail_bpf,
}
use syncookie_xdp.Attach.MapInfo.{BpfMapInfo, IsCompatible}
use syncookie_xdp.Loader.{
  LibbpfObjects, Config, choose, is_fd, Run, returns, exits, attach_program, load_bpf_object_file,
  load_bpf_and_xdp_attach, filename_string, pin_at, pin_maps_in_bpf_object, after_load, snprintf,
  path_max, pin_basedir, map_name,
}
use syncookie_xdp.Loader
use syncookie_xdp.Loader.Attached.{main-load}
use syncookie_xdp.Stats.{action_max}
use syncookie_xdp.StatsProgram.{main, polls, no_info, map_expect, stats_map_fd, open_bpf_map_file}
use syncookie_xdp.StatsProgram.Opening.{main-outcome, fd}
use syncookie_xdp.StatsProgram.PinnedPath.{pinned_path}

-- The definition of xdp_stats_map: BPF_MAP_TYPE_PERCPU_ARRAY, with the sizes of __u32 and struct
-- datarec.
abbrev pub xdp_stats_map : BpfMapInfo
xdp_stats_map = record { map_type = 6; key_size = 4; value_size = 16; max_entries = action_max }

snprintf-whole : (n : ℕ) (s : List ℕ) → length s < n → snprintf n s ≡ s
unfolding snprintf
snprintf-whole zero s h = absurd (omega arith)
snprintf-whole (suc zero) [] h = refl
snprintf-whole (suc zero) (b ∷ s) h = absurd (omega arith)
snprintf-whole (suc (suc n)) [] h = refl
snprintf-whole (suc (suc n)) (b ∷ s) h = ap (◌∷◌ b) (snprintf-whole (suc n) s (omega arith))

abbrev device_dir : List ℕ → List ℕ
device_dir device = snprintf path_max (pin_basedir ++ (b'/' ∷ device))

-- The path that the statistics program opens.
abbrev pub map_path : List ℕ → List ℕ
map_path device = snprintf path_max (device_dir device ++ (b'/' ∷ map_name))

xdp_stats_map-IsCompatible : IsCompatible xdp_stats_map map_expect
xdp_stats_map-IsCompatible = record {
  keys = inr refl;
  sizes = inr refl;
  entries = inr refl;
  kinds = inl refl;
}

-- The object that a function of the loader gives, if it does not exit, and then not with 0.
abbrev IsObject : ℕ → Run (ℕ × Config) → Type 0
IsObject obj (exits code) = code ≢ 0
IsObject obj (returns result) = result.0 ≡ obj

module _ {ℓ} {K : Type ℓ} (lib : Libbpf K) (objects : LibbpfObjects K) where
  attach_program-IsObject :
      (i : ℕ) (cfg : Config) (obj : ℕ) (k : K)
      → IsObject obj (attach_program lib objects i cfg obj k).0
  unfolding attach_program
  attach_program-IsObject i cfg obj k =
      let prog = choose lib objects cfg obj in
      let fd = objects.program_fd prog in
      elim (Bool-cases (prog == 0)) [
        | inl a ↦ rw a (omega arith)
        | inr a ↦ elim (Bool-cases (is_fd lib objects fd)) [
          | inr b ↦ rw a (rw b (omega arith))
          | inl b ↦ elim (Bool-cases ((xdp_link_attach lib i cfg.xdp_flags fd k).0 == 0)) [
            | inr c ↦ rw a (rw b (rw c (ground arith)))
            | inl c ↦ rw a (rw b (rw c refl))
          ]
        ]
      ]

  abbrev pub offload : ℕ → Config → ℕ
  offload i cfg = if any_flag cfg.xdp_flags hw_mode then i else 0

  abbrev pub loaded : ℕ → Config → K → (ℤ × ℕ) × K
  loaded i cfg k = objects.prog_load_xattr (filename_string cfg) (offload i cfg) k

  load-IsObject :
      (i : ℕ) (cfg : Config) (k : K)
      → IsObject (loaded i cfg k).0.1 (load_bpf_and_xdp_attach lib objects i cfg k).0
  unfolding load_bpf_and_xdp_attach load_bpf_object_file
  load-IsObject i cfg k =
      let r = loaded i cfg k in
      elim (Bool-cases (is_pos r.0.0 0)) [
        | inr failed ↦ rw failed (omega arith)
        | inl fine ↦ elim (Bool-cases (r.0.1 == 0)) [
          | inl null ↦ rw fine (rw null (omega arith))
          | inr there ↦ rw fine (rw there (attach_program-IsObject i cfg r.0.1 r.1))
        ]
      ]

  -- pin_at ends with 0 only behind a call of pin_maps that gave 0.
  pin_at-pinned :
      (obj : ℕ) (dir file : List ℕ) (k : K)
      → (pin_at lib objects obj dir file k).0 ≡ exit_ok
      → (k0 : K) × (is_pos (objects.pin_maps obj dir k0).0 0 ≡ true)
        × ((pin_at lib objects obj dir file k).1 ≡ (objects.pin_maps obj dir k0).1)
  unfolding pin_at
  pin_at-pinned obj dir file k = elim (Bool-cases (objects.access file k)) [
    | inr absent ↦ rw absent (pinned_from k)
    | inl there ↦ elim (Bool-cases (is_pos (objects.unpin_maps obj dir k).0 0)) [
      | inr failed ↦ rw there (rw failed (λ h. absurd (omega arith)))
      | inl gone ↦ rw there (rw gone (pinned_from (objects.unpin_maps obj dir k).1))
    ]
  ]
    where
      pinned_from :
          (k1 : K)
          → (if not (is_pos (objects.pin_maps obj dir k1).0 0) then exit_fail_bpf else exit_ok)
            ≡ exit_ok
          → (k0 : K) × (is_pos (objects.pin_maps obj dir k0).0 0 ≡ true)
            × ((objects.pin_maps obj dir k1).1 ≡ (objects.pin_maps obj dir k0).1)
      pinned_from k1 h = (k1, ground arith, refl)

  module _ (defines : ℕ → List ℕ → Option BpfMapInfo) (obj_get : List ℕ → K → ℤ)
      (get_info : ℤ → BpfMapInfo → K → ℤ × BpfMapInfo) where
    -- A map can be opened at a path, and is described there.
    pub record IsThere (path : List ℕ) (info : BpfMapInfo) (k : K) : Type 0 where
      pub opened : is_negative (obj_get path k) ≡ false
      pub described : get_info (obj_get path k) no_info k ≡ (pos 0, info)

    -- What libbpf and the kernel document: where bpf_object__pin_maps gives 0, each map that the
    -- object defines is in the directory under its name, at a path that is not too long, and can be
    -- opened and is described there as it was defined.
    pub record IsFiling : Type ℓ where
      pub pinned :
          (obj : ℕ) (dir name : List ℕ) (info : BpfMapInfo) (k : K)
          → is_pos (objects.pin_maps obj dir k).0 0 ≡ true
          → defines obj name ≡ some info
          → (length (dir ++ (b'/' ∷ name)) < path_max)
            × IsThere (dir ++ (b'/' ∷ name)) info (objects.pin_maps obj dir k).1

    after_load-IsThere :
        IsFiling
        → (cfg : Config) (obj : ℕ) (r : Run (ℕ × Config) × K)
        → defines obj map_name ≡ some xdp_stats_map
        → IsObject obj r.0
        → (after_load lib objects cfg r).0 ≡ exit_ok
        → IsThere (map_path cfg.ifname) xdp_stats_map (after_load lib objects cfg r).1
    unfolding after_load pin_maps_in_bpf_object
    after_load-IsThere filing cfg obj (exits code, k) has nonzero h = absurd (nonzero h)
    after_load-IsThere filing cfg obj (returns result, k) has same h =
        let (k0, pinned, end) =
          pin_at-pinned result.0 (device_dir cfg.ifname)
            (snprintf path_max (pinned_path cfg.ifname)) k h in
        let (short, there) =
          filing.pinned result.0 (device_dir cfg.ifname) map_name xdp_stats_map k0 pinned
            (ap (λ (o : ℕ). defines o map_name) same ∙ has) in
        subst (IsThere (map_path cfg.ifname) xdp_stats_map) (sym end) (
          subst
            (λ (path : List ℕ).
              IsThere path xdp_stats_map (objects.pin_maps result.0 (device_dir cfg.ifname) k0).1)
            (sym (snprintf-whole path_max (device_dir cfg.ifname ++ (b'/' ∷ map_name)) short))
            there)

    main-polls :
        (cfg : Config) (i : ℕ) (k : K)
        → cfg.ifindex ≡ some i
        → IsThere (map_path cfg.ifname) xdp_stats_map k
        → (map_fd : ℤ) × (main (λ path. obj_get path k) (λ fd info. get_info fd info k) cfg
            ≡ polls map_fd xdp_stats_map)
    unfolding stats_map_fd open_bpf_map_file
    main-polls cfg i k device there =
        let open_path : List ℕ → ℤ = λ path. obj_get path k in
        let describe : ℤ → BpfMapInfo → ℤ × BpfMapInfo = λ fd info. get_info fd info k in
        let expected : IsCompatible (get_info (obj_get (map_path cfg.ifname) k) no_info k).1
            map_expect =
          subst (λ (info : BpfMapInfo). IsCompatible info map_expect)
            (sym (ap (λ (x : ℤ × BpfMapInfo). x.1) there.described)) xdp_stats_map-IsCompatible in
        elim (main-outcome open_path describe cfg) [
          | inl (polled, ready) ↦ (
            fd open_path describe cfg,
            polled
                ∙ ap (λ (x : ℤ × BpfMapInfo). polls (fd open_path describe cfg) x.1)
                    there.described,
          )
          | inr (code, exited, nonzero, not_ready) ↦ absurd (
              not_ready (record {
                ifindex = i;
                device = device;
                opened = there.opened;
                described = ap (λ (x : ℤ × BpfMapInfo). x.0) there.described;
                compatible = expected;
              }))
        ]

    -- When the loader has exited with 0 behind loading an object file with xdp_stats_map, the
    -- statistics program for a device of that name polls the map, an array for each CPU. This is for a
    -- libbpf that pins maps as it documents.
    pub main-after_loader :
        IsFiling
        → (cfg cfg' : Config) (i i' : ℕ) (k k' : K) → cfg.ifindex ≡ some i
        → cfg.do_unload ≡ false
        → defines (loaded i cfg k).0.1 map_name ≡ some xdp_stats_map
        → Loader.main lib objects cfg k ≡ (exit_ok, k')
        → cfg'.ifindex ≡ some i'
        → cfg'.ifname ≡ cfg.ifname
        → (map_fd : ℤ) × (main (λ path. obj_get path k') (λ fd info. get_info fd info k') cfg'
            ≡ polls map_fd xdp_stats_map)
    main-after_loader filing cfg cfg' i i' k k' device load has done device' same =
        let r = load_bpf_and_xdp_attach lib objects i cfg k in
        let end = sym (main-load lib objects cfg k i device load) ∙ done in
        let there =
          after_load-IsThere filing cfg (loaded i cfg k).0.1 r has (load-IsObject i cfg k)
            (ap (λ (x : ℕ × K). x.0) end) in
        main-polls cfg' i' k' device' (
          subst (λ (name : List ℕ). IsThere (map_path name) xdp_stats_map k') (sym same)
            (subst (IsThere (map_path cfg.ifname) xdp_stats_map) (ap (λ (x : ℕ × K). x.1) end)
              there))
