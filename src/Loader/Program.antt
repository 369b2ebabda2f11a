-- ===== src/Loader/Program.antt =====
-- main of loader/xdp_loader.c with its command line.
use syncookie_xdp.Prelude.{
  ℕ, ◌+◌, ◌≡◌, ◌⊎◌, inl, inr, Bool, true, false, Option, none, some, List, [], Option-cases,
  some_inj, none_ne_some, ap, sym, subst, arith, ◌∙◌,
}
use syncookie_xdp.Prelude.Int.{ℤ}
use syncookie_xdp.Attach.{Libbpf, exit_ok, update_if_noexist, drv_mode}
use syncookie_xdp.Attach.Kernel.{IsLink}
use syncookie_xdp.Loader.{LibbpfObjects, strncpy, main}
use syncookie_xdp.Loader.Attached.{IsPinning, IsRunning, IsUnloaded, IsDone, main-IsDone}
use syncookie_xdp.CommandLine.{
  Opt, Settings, Outcome, returns, exits, undefined, parse_loop, goes_on, parse_cmdline_args,
  IsEndOf, parse_cmdline_args-IsEndOf,
}
use syncookie_xdp.CommandLine.Tables.{loader_options, loader_doc, default_filename}
use syncookie_xdp.CommandLine.Accepted.{AllTexts}
use syncookie_xdp.CommandLine.Modes.{IsNewFlags, last_mode, has_force, parse_loop-IsNewFlags}
use syncookie_xdp.CommandLine.Fields.{IsParsed, last_arg, has_opt, parse_loop-IsParsed}

-- XDP_FLAGS_UPDATE_IF_NOEXIST | XDP_FLAGS_DRV_MODE; what the initialiser leaves out is 0.
unfoldable pub initial_settings : Settings
unfolding strncpy
initial_settings = record {
  cfg = record {
    xdp_flags = update_if_noexist + drv_mode;
    ifindex = none;
    ifname = [];
    redirect_ifindex = 0;
    redirect_ifname = [];
    do_unload = false;
    filename = strncpy 512 default_filename;
    progsec = strncpy 32 [];
    src_mac = strncpy 18 [];
    dest_mac = strncpy 18 [];
  };
  verbose = true;
}

module _ {ℓ} {K : Type ℓ} (lib : Libbpf K) (objects : LibbpfObjects K)
    (if_nametoindex : List ℕ → ℕ) where
  unfoldable pub after_parsing : Outcome → K → Option (ℕ × K)
  unfolding main
  after_parsing (returns p) k = some (main lib objects p.cfg k)
  after_parsing (exits code text) k = some (code, k)
  after_parsing undefined k = none

  -- The exit code and the kernel behind it, where C says what happens.
  unfoldable pub run_program : Bool → List ℕ → List Opt → K → Option (ℕ × K)
  unfolding parse_cmdline_args initial_settings after_parsing
  run_program malloc prog_name opts k =
      after_parsing
        (parse_cmdline_args if_nametoindex malloc prog_name opts loader_options initial_settings
          loader_doc)
        k

module _ {ℓ} {K : Type ℓ} (lib : Libbpf K) (objects : LibbpfObjects K) (if_nametoindex : List ℕ → ℕ)
    (attached : ℕ → ℕ → K → Option ℕ) (program : ℤ → Option ℕ) (link : IsLink lib attached program)
    (pinning : IsPinning objects attached) where
  -- The command line was accepted and has been carried out, on the kernel `k` before: its last device
  -- has the program of the section that it names, of the object loaded from the file that it names, in
  -- the mode that it asks for; or with --unload none, or it asks for no mode and nothing has changed.
  pub record IsCarriedOut (opts : List Opt) (k k' : K) : Type ℓ where
    pub settings : Settings
    pub parsed : IsParsed if_nametoindex opts initial_settings settings
    pub flags : IsNewFlags (last_mode opts) (has_force opts) 5 settings.cfg.xdp_flags
    pub name : List ℕ
    pub named : last_arg b'd' opts ≡ some name
    pub carried_out :
        ((has_opt b'U' opts ≡ false)
          × IsRunning lib objects attached program link settings.cfg (if_nametoindex name) k k')
        ⊎ ((has_opt b'U' opts ≡ true)
            × IsUnloaded lib objects attached program link pinning
                (if_nametoindex name)
                settings.cfg.xdp_flags
                k
                k')

  done :
      (opts : List Opt) (p : Settings) (k k' : K)
      → AllTexts opts
      → parse_loop if_nametoindex opts initial_settings ≡ goes_on p
      → main lib objects p.cfg k ≡ (exit_ok, k')
      → IsCarriedOut opts k k'
  unfolding initial_settings
  done opts p k k' texts went e =
      let parsed = parse_loop-IsParsed if_nametoindex opts initial_settings p texts went in
      let (i, (index, rest)) = subst (IsDone lib objects attached program link pinning p.cfg k) e (
        main-IsDone lib objects attached program link pinning p.cfg k
          (ap (λ (r : ℕ × K). r.0) e)) in
      elim (Option-cases (last_arg b'd' opts)) [
        | inl no_name ↦
            let same : none ≡ some i = sym (rw no_name at parsed.ifindex) ∙ index in absurd (cc)
        | inr (name, named) ↦
            let same : some (if_nametoindex name) ≡ some i =
              sym (rw named at parsed.ifindex) ∙ index in
            let here : i ≡ if_nametoindex name = sym (some_inj same) in
            record {
              settings = p;
              parsed = parsed;
              flags =
                  parse_loop-IsNewFlags if_nametoindex opts initial_settings p (omega arith) went;
              name = name;
              named = named;
              carried_out = elim rest [
                | inl (loads, running) ↦ inl (
                  sym parsed.do_unload ∙ loads,
                  subst (λ (j : ℕ). IsRunning lib objects attached program link p.cfg j k k') here
                      running,
                )
                | inr (unloads, gone) ↦ inr (
                  sym parsed.do_unload ∙ unloads,
                  subst
                      (λ (j : ℕ).
                        IsUnloaded lib objects attached program link pinning j p.cfg.xdp_flags k k')
                      here gone,
                )
              ];
            }
      ]

  after :
      (opts : List Opt) (k k' : K)
      → AllTexts opts
      → (o : Outcome) → IsEndOf (parse_loop if_nametoindex opts initial_settings) o
      → after_parsing lib objects if_nametoindex o k ≡ some (exit_ok, k')
      → IsCarriedOut opts k k'
  unfolding after_parsing
  after opts k k' texts (returns p) ended e = done opts p k k' texts ended (some_inj e)
  after opts k k' texts (exits code text) ended e =
      absurd (let zero : code ≡ 0 = ap (λ (r : ℕ × K). r.0) (some_inj e) in omega arith)
  after opts k k' texts undefined ended e = absurd (none_ne_some e)

  -- If the loader exits with 0, then its command line names a device, and for the last that it names
  -- the command line is carried out: the program is attached that it asks for, of the object loaded
  -- from the file that it asks for, in the mode of its last option for one, or of those it starts
  -- with; or with --unload none is attached in that mode, or --auto-mode was the last option for one,
  -- so that there is no mode, and nothing has changed. This is for texts as getopt_long gives them, for
  -- a libbpf that does what it documents, and pinning that leaves alone what is attached.
  pub run_program-IsCarriedOut :
      (malloc : Bool) (prog_name : List ℕ) (opts : List Opt) (k k' : K)
      → AllTexts opts
      → run_program lib objects if_nametoindex malloc prog_name opts k ≡ some (exit_ok, k')
      → IsCarriedOut opts k k'
  unfolding run_program
  run_program-IsCarriedOut malloc prog_name opts k k' texts h =
      let outcome =
        parse_cmdline_args if_nametoindex malloc prog_name opts loader_options initial_settings
          loader_doc in
      after opts k k' texts outcome
        (parse_cmdline_args-IsEndOf if_nametoindex malloc prog_name opts loader_options
          initial_settings loader_doc)
        h
