-- ===== src/StatsProgram/Commands.antt =====
-- The two programs of loader/ with their command lines, one after the other.
use syncookie_xdp.Prelude.{
  ℕ, ◌≡◌, refl, inl, inr, Bool, false, Option, some, List, ap, sym, ◌∙◌, some_inj, arith,
}
use syncookie_xdp.Prelude.Int.{ℤ}
use syncookie_xdp.Attach.{Libbpf, exit_ok}
use syncookie_xdp.Attach.MapInfo.{BpfMapInfo}
use syncookie_xdp.Loader.{LibbpfObjects, map_name}
use syncookie_xdp.Loader
use syncookie_xdp.Loader.Program.{initial_settings, after_parsing}
use syncookie_xdp.Loader.Program
use syncookie_xdp.CommandLine.{Opt, Settings, parse_loop, goes_on}
use syncookie_xdp.CommandLine.Accepted.{AllTexts}
use syncookie_xdp.CommandLine.Ends.{
  loader-IsPrintable, stats-IsPrintable, IsAccepted, parse_cmdline_args-cases,
}
use syncookie_xdp.CommandLine.Fields.{last_arg, has_opt, parse_loop-IsParsed}
use syncookie_xdp.CommandLine.Tables.{loader_options, loader_doc, stats_options, stats_doc}
use syncookie_xdp.StatsProgram.{main, run_program, stats_settings, polls}
use syncookie_xdp.StatsProgram.AfterLoader.{xdp_stats_map, loaded, IsFiling, main-after_loader}

goes_on_inj : {p q : Settings} → goes_on p ≡ goes_on q → p ≡ q
goes_on_inj e = cc

-- The loader that has exited with 0 has got to the end of its main.
loader-main {ℓ} :
    {K : Type ℓ} (lib : Libbpf K) (objects : LibbpfObjects K) (if_nametoindex : List ℕ → ℕ)
    (malloc : Bool) (prog_name : List ℕ) (opts : List Opt) (p : Settings) (k k' : K)
    → AllTexts opts
    → parse_loop if_nametoindex opts initial_settings ≡ goes_on p
    → Loader.Program.run_program lib objects if_nametoindex malloc prog_name opts k
      ≡ some (exit_ok, k')
    → Loader.main lib objects p.cfg k ≡ (exit_ok, k')
unfolding Loader.Program.run_program after_parsing
loader-main {K} lib objects if_nametoindex malloc prog_name opts p k k' texts went done =
    elim (parse_cmdline_args-cases if_nametoindex loader_options loader_doc loader-IsPrintable
      malloc prog_name opts initial_settings texts) [
        | inr (refused, (text, printed)) ↦
            let wrong =
              ap (λ (r : ℕ × K). r.0)
                (some_inj (rw (printed, Loader.Program.run_program) at done)) in
            absurd (omega arith)
        | inl (ok, (q, went_q, returned)) ↦
            let same : q ≡ p = goes_on_inj (sym went_q ∙ went) in
            ap (λ (x : Settings). Loader.main lib objects x.cfg k) (sym same)
            ∙ some_inj (rw (returned, Loader.Program.run_program) at done)
      ]

-- The statistics program with an accepted command line.
stats-main :
    (bpf_obj_get : List ℕ → ℤ) (get_info : ℤ → BpfMapInfo → ℤ × BpfMapInfo)
    (if_nametoindex : List ℕ → ℕ) (malloc : Bool) (prog_name : List ℕ) (opts : List Opt)
    → AllTexts opts
    → IsAccepted if_nametoindex malloc opts
    → (p : Settings) × (parse_loop if_nametoindex opts stats_settings ≡ goes_on p)
      × (run_program bpf_obj_get get_info if_nametoindex malloc prog_name opts
          ≡ main bpf_obj_get get_info p.cfg)
unfolding run_program
stats-main bpf_obj_get get_info if_nametoindex malloc prog_name opts texts accepted =
    elim (parse_cmdline_args-cases if_nametoindex stats_options stats_doc stats-IsPrintable malloc
      prog_name opts stats_settings texts) [
        | inr (refused, printed) ↦ absurd (refused accepted)
        | inl (ok, (p, went, returned)) ↦ (p, went, rw (returned, run_program) refl)
      ]

module _ {ℓ} {K : Type ℓ} (lib : Libbpf K) (objects : LibbpfObjects K)
    (defines : ℕ → List ℕ → Option BpfMapInfo) (obj_get : List ℕ → K → ℤ)
    (get_info : ℤ → BpfMapInfo → K → ℤ × BpfMapInfo) (if_nametoindex : List ℕ → ℕ) where
  -- When the loader, called to load an object file with xdp_stats_map for a device, has exited with 0,
  -- then a call of the statistics program for the same device, with an accepted command line, polls the
  -- map, an array for each CPU. This is for texts as getopt_long gives them, and for a libbpf that pins
  -- maps as it documents.
  pub run_program-after_loader :
      IsFiling lib objects defines obj_get get_info
      → (malloc malloc' : Bool) (prog_name prog_name' name : List ℕ) (opts opts' : List Opt)
        (p : Settings) (k k' : K)
      → AllTexts opts
      → AllTexts opts'
      → parse_loop if_nametoindex opts initial_settings ≡ goes_on p
      → last_arg b'd' opts ≡ some name
      → has_opt b'U' opts ≡ false
      → defines (loaded lib objects (if_nametoindex name) p.cfg k).0.1 map_name ≡ some xdp_stats_map
      → Loader.Program.run_program lib objects if_nametoindex malloc prog_name opts k
        ≡ some (exit_ok, k')
      → IsAccepted if_nametoindex malloc' opts'
      → last_arg b'd' opts' ≡ some name
      → (map_fd : ℤ) × (run_program
            (λ path. obj_get path k')
            (λ fd info. get_info fd info k')
            if_nametoindex
            malloc'
            prog_name'
            opts'
          ≡ polls map_fd xdp_stats_map)
  unfolding initial_settings stats_settings
  run_program-after_loader filing malloc malloc' prog_name prog_name' name opts opts' p k k' texts
        texts' went named loads has done accepted named' =
      let parsed = parse_loop-IsParsed if_nametoindex opts initial_settings p texts went in
      let (p', went', run') =
        stats-main (λ path. obj_get path k') (λ fd info. get_info fd info k') if_nametoindex malloc'
          prog_name' opts' texts' accepted in
      let parsed' = parse_loop-IsParsed if_nametoindex opts' stats_settings p' texts' went' in
      let (map_fd, polled) =
        main-after_loader lib objects defines obj_get get_info filing p.cfg p'.cfg
          (if_nametoindex name) (if_nametoindex name) k k' (rw named at parsed.ifindex)
          (rw loads at parsed.do_unload) has
          (loader-main lib objects if_nametoindex malloc prog_name opts p k k' texts went done)
          (rw named' at parsed'.ifindex)
          ((rw named' at parsed'.ifname) ∙ sym (rw named at parsed.ifname)) in
      (map_fd, run' ∙ polled)
