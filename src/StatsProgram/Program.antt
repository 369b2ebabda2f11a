-- ===== src/StatsProgram/Program.antt =====
-- main of loader/xdp_stats.c with its command line.
use syncookie_xdp.Prelude.{
  refl, ℕ, ◌≡◌, ◌≢◌, ◌⊎◌, inl, inr, Bool, false, some, List, Option-cases, none_ne_some, ap, sym,
  subst, arith, ◌∙◌,
}
use syncookie_xdp.Prelude.Int.{ℤ, pos}
use syncookie_xdp.Attach.{is_negative}
use syncookie_xdp.Attach.MapInfo.{BpfMapInfo, IsCompatible}
use syncookie_xdp.Loader.{exit_fail_option}
use syncookie_xdp.CommandLine.{Opt, Settings, parse_loop, goes_on}
use syncookie_xdp.CommandLine.Accepted.{AllTexts}
use syncookie_xdp.CommandLine.Ends.{stats-IsPrintable, IsAccepted, parse_cmdline_args-cases}
use syncookie_xdp.CommandLine.Fields.{last_arg, parse_loop-IsParsed}
use syncookie_xdp.CommandLine.Tables.{stats_options, stats_doc}
use syncookie_xdp.StatsProgram.{
  main, run_program, stats_settings, stats_map_fd, map_expect, no_info, exits_with, polls, Ending,
}
use syncookie_xdp.StatsProgram.Opening.{IsReady, main-outcome}

module _ (bpf_obj_get : List ℕ → ℤ) (get_info : ℤ → BpfMapInfo → ℤ × BpfMapInfo)
    (if_nametoindex : List ℕ → ℕ) (malloc : Bool) (prog_name : List ℕ) (opts : List Opt)
    (texts : AllTexts opts) where
  abbrev map_fd : List ℕ → ℤ
  map_fd name = stats_map_fd bpf_obj_get get_info name

  -- What the command line and the kernel must give: an accepted command line that names a device, for
  -- the last of which there is a pinned map, which the kernel describes as the program expects it.
  pub record IsStarted : Type 0 where
    pub accepted : IsAccepted if_nametoindex malloc opts
    pub name : List ℕ
    pub named : last_arg b'd' opts ≡ some name
    pub opened : is_negative (map_fd name) ≡ false
    pub described : (get_info (map_fd name) no_info).0 ≡ pos 0
    pub compatible : IsCompatible (get_info (map_fd name) no_info).1 map_expect

  -- A device that is there was named.
  device_named :
      (p : Settings)
      → parse_loop if_nametoindex opts stats_settings ≡ goes_on p
      → IsReady bpf_obj_get get_info p.cfg
      → (name : List ℕ) × (last_arg b'd' opts ≡ some name) × (p.cfg.ifname ≡ name)
  unfolding stats_settings
  device_named p went ready =
      let parsed = parse_loop-IsParsed if_nametoindex opts stats_settings p texts went in
      elim (Option-cases (last_arg b'd' opts)) [
        | inl unnamed ↦ absurd (none_ne_some (sym (rw unnamed at parsed.ifindex) ∙ ready.device))
        | inr (name, named) ↦ (name, named, rw named at parsed.ifname)
      ]

  started_ready :
      (p : Settings)
      → parse_loop if_nametoindex opts stats_settings ≡ goes_on p
      → IsStarted
      → IsReady bpf_obj_get get_info p.cfg
  started_ready p went st =
      let parsed = parse_loop-IsParsed if_nametoindex opts stats_settings p texts went in
      let same : st.name ≡ p.cfg.ifname = sym (rw st.named at parsed.ifname) in
      record {
        ifindex = if_nametoindex st.name;
        device = rw st.named at parsed.ifindex;
        opened = subst (λ n. is_negative (map_fd n) ≡ false) same st.opened;
        described = subst (λ n. (get_info (map_fd n) no_info).0 ≡ pos 0) same st.described;
        compatible =
            subst (λ n. IsCompatible (get_info (map_fd n) no_info).1 map_expect) same st.compatible;
      }

  abbrev result : Ending
  result = run_program bpf_obj_get get_info if_nametoindex malloc prog_name opts

  -- For every command line, the program starts to poll the map of the last device that is named, or it
  -- exits, with a code that is not 0. It polls exactly if the command line is accepted and names a
  -- device, and if the map of the device can be opened and is as the program expects it.
  pub run_program-outcome :
      ((st : IsStarted) × (result ≡ polls (map_fd st.name) (get_info (map_fd st.name) no_info).1))
      ⊎ ((code : ℕ) × (result ≡ exits_with code) × (code ≢ 0) × ¬ IsStarted)
  unfolding run_program
  run_program-outcome =
      elim (parse_cmdline_args-cases if_nametoindex stats_options stats_doc stats-IsPrintable malloc
        prog_name opts stats_settings texts) [
          | inr (refused, (text, printed)) ↦ inr (
            exit_fail_option,
            rw (printed, run_program) refl,
            omega arith,
            λ st. refused st.accepted,
          )
          | inl (accepted, (p, went, returned)) ↦
              let here : result ≡ main bpf_obj_get get_info p.cfg =
                rw (returned, run_program) refl in
              elim (main-outcome bpf_obj_get get_info p.cfg) [
                | inl (polled, ready) ↦
                    let (name, named, same) = device_named p went ready in
                    inl (
                      record {
                        accepted = accepted;
                        name = name;
                        named = named;
                        opened = subst (λ n. is_negative (map_fd n) ≡ false) same ready.opened;
                        described =
                            subst (λ n. (get_info (map_fd n) no_info).0 ≡ pos 0) same
                              ready.described;
                        compatible =
                            subst (λ n. IsCompatible (get_info (map_fd n) no_info).1 map_expect)
                              same ready.compatible;
                      },
                      here
                          ∙ (polled
                              ∙ ap (λ n. polls (map_fd n) (get_info (map_fd n) no_info).1) same),
                    )
                | inr (code, exited, nonzero, not_ready) ↦
                    inr (code, here ∙ exited, nonzero, λ st. not_ready (started_ready p went st))
              ]
        ]
