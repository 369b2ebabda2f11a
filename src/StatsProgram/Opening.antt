-- ===== src/StatsProgram/Opening.antt =====
-- When loader/xdp_stats.c starts to poll.
use syncookie_xdp.Prelude.{
  ℕ, ◌≡◌, ◌≢◌, ◌⊎◌, inl, inr, refl, true, false, none, some, ◌==◌, Bool-cases, Option-cases,
  none_ne_some, arith, sym, ◌∙◌, List,
}
use syncookie_xdp.Prelude.Int.{ℤ, pos, is_pos}
use syncookie_xdp.Attach.{is_negative, exit_fail_bpf}
use syncookie_xdp.Attach.MapInfo.{
  BpfMapInfo, check_map_fd_info, check_map_fd_info_iff, IsCompatible,
}
use syncookie_xdp.Loader.{Config, exit_fail_option}
use syncookie_xdp.StatsProgram.{main, stats_map_fd, map_expect, no_info, exits_with, polls}

module _ (bpf_obj_get : List ℕ → ℤ) (get_info : ℤ → BpfMapInfo → ℤ × BpfMapInfo)
    (cfg : Config) where
  abbrev pub fd : ℤ
  fd = stats_map_fd bpf_obj_get get_info cfg.ifname

  -- What the program needs: a device, whose directory has the map, which the kernel describes as the
  -- program expects it.
  pub record IsReady : Type 0 where
    pub ifindex : ℕ
    pub device : cfg.ifindex ≡ some ifindex
    pub opened : is_negative fd ≡ false
    pub described : (get_info fd no_info).0 ≡ pos 0
    pub compatible : IsCompatible (get_info fd no_info).1 map_expect

  abbrev checked : ℕ × BpfMapInfo
  checked = check_map_fd_info get_info fd no_info map_expect

  main-missing : cfg.ifindex ≡ none → main bpf_obj_get get_info cfg ≡ exits_with exit_fail_option
  unfolding main
  main-missing missing = rw missing refl

  module _ (i : ℕ) (there : cfg.ifindex ≡ some i) where
    main-unopened : is_negative fd ≡ true → main bpf_obj_get get_info cfg ≡ exits_with exit_fail_bpf
    unfolding main
    main-unopened neg = rw there (rw neg refl)

    main-checked :
        is_negative fd ≡ false
        → (checked.0 == 0) ≡ true
        → main bpf_obj_get get_info cfg ≡ polls fd (get_info fd no_info).1
    unfolding main
    main-checked valid ok = elim (Bool-cases (is_pos (get_info fd no_info).0 0)) [
      | inl zero ↦ rw there (rw ok (rw valid (rw zero refl)))
      | inr bad ↦ rw there (rw ok (rw valid (rw bad refl)))
    ]

    main-refused :
        is_negative fd ≡ false
        → (checked.0 == 0) ≡ false
        → main bpf_obj_get get_info cfg ≡ exits_with checked.0
    unfolding main
    main-refused valid bad = rw there (rw bad (rw valid refl))

  -- main polls the map of the device that the command line names where the map can be opened, and
  -- the kernel describes it, with the sizes that the program expects. Otherwise it exits, with a code
  -- that is not 0.
  pub main-outcome :
      ((main bpf_obj_get get_info cfg ≡ polls fd (get_info fd no_info).1) × IsReady)
      ⊎ ((code : ℕ) × (main bpf_obj_get get_info cfg ≡ exits_with code) × (code ≢ 0) × ¬ IsReady)
  main-outcome = elim (Option-cases cfg.ifindex) [
    | inl missing ↦ inr (
      exit_fail_option,
      main-missing missing,
      omega arith,
      λ r. let same : none ≡ some r.ifindex = sym missing ∙ r.device in none_ne_some same,
    )
    | inr (i, there) ↦ elim (Bool-cases (is_negative fd)) [
      | inl neg ↦ inr (
        exit_fail_bpf,
        main-unopened i there neg,
        omega arith,
        λ r. let valid = r.opened in ground arith,
      )
      | inr valid ↦ elim (Bool-cases (checked.0 == 0)) [
        | inl ok ↦
            let c = (check_map_fd_info_iff get_info fd no_info map_expect).0 (ground arith) in
            inl (
              main-checked i there valid ok,
              record {
                ifindex = i;
                device = there;
                opened = valid;
                described = c.1.0;
                compatible = c.1.1;
              },
            )
        | inr bad ↦ inr (
          checked.0,
          main-refused i there valid bad,
          ground arith,
          λ r.
              let zero =
                (check_map_fd_info_iff get_info fd no_info map_expect).1
                  (valid, (r.described, r.compatible)) in
              ground arith,
        )
      ]
    ]
  ]
