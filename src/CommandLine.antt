-- ===== src/CommandLine.antt =====
-- common/common_params.c: parse_cmdline_args, which turns the results of getopt_long into the fields
-- of struct config. getopt_long and if_nametoindex are parameters.
pub mod Usage
pub mod Tables
pub mod Options
pub mod Modes
pub mod Accepted
pub mod Ends
pub mod Fields
use Prim.Native.Nat.{bit_and, bit_or}
use syncookie_xdp.Prelude.{
  ℕ, zero, suc, ◌-◌, ◌^◌, Bool, true, false, not, ◌||◌, Option, none, some, List, [], ◌∷◌, ◌==◌,
  ◌≡◌, ◌⊎◌, inl, inr, refl, Bool-cases, Option-cases, subst, sym, ltb, if◌then◌else◌, length,
}
use syncookie_xdp.Attach.{clear_modes, update_if_noexist, skb_mode, drv_mode, hw_mode}
use syncookie_xdp.Prelude.Int.{is_pos}
use syncookie_xdp.Loader.{Config, c_string, strncpy, exit_fail_option}
use syncookie_xdp.CommandLine.Options.{OptionWrapper, option_wrappers_to_options}
use syncookie_xdp.CommandLine.Usage.{usage}

-- IF_NAMESIZE of the system's headers.
abbrev pub if_namesize : ℕ
if_namesize = 16

-- A result of getopt_long: the option's value, and the text that optarg points to.
pub record Opt : Type 0 where
  pub opt : ℕ
  pub optarg : List ℕ

-- What the loop changes: the configuration, and the variable `verbose`.
pub record Settings : Type 0 where
  pub cfg : Config
  pub verbose : Bool

-- After one option the loop goes on, or usage is printed, in full or not, and the process exits.
pub data Step : Type 0 where
  goes_on : Settings → Step
  stops : Bool → Step

-- To split on a computed step and keep the equation.
pub Step-cases :
    (x : Step) → ((p : Settings) × (x ≡ goes_on p)) ⊎ ((full_help : Bool) × (x ≡ stops full_help))
Step-cases (goes_on p) = inl (p, refl)
Step-cases (stops full_help) = inr (full_help, refl)

-- `cfg->xdp_flags &= ~XDP_FLAGS_MODES; cfg->xdp_flags |= mode;`
unfoldable pub set_mode : ℕ → ℕ → ℕ
unfolding clear_modes
set_mode mode flags = bit_or (clear_modes flags) mode

-- `cfg->xdp_flags &= ~XDP_FLAGS_UPDATE_IF_NOEXIST;`
unfoldable pub set_force : ℕ → ℕ
set_force flags = bit_and flags (2 ^ 32 - 1 - update_if_noexist)

abbrev pub with_flags : Settings → ℕ → Step
with_flags p flags = goes_on (record p { cfg = record p.cfg { xdp_flags = flags } })

module _ (if_nametoindex : List ℕ → ℕ) where
  -- The name is copied into a buffer of IF_NAMESIZE bytes, which ends it with a 0.
  unfoldable pub set_device : List ℕ → Settings → Step
  unfolding strncpy
  set_device optarg p =
      if not (ltb (length optarg) if_namesize)
      then stops false
      else (let name = c_string (strncpy if_namesize optarg) in
          let index = if_nametoindex name in
          if index == 0
          then stops false
          else goes_on (record p { cfg = record p.cfg { ifname = name; ifindex = some index } }))

  unfoldable pub set_redirect_device : List ℕ → Settings → Step
  unfolding strncpy
  set_redirect_device optarg p =
      if not (ltb (length optarg) if_namesize)
      then stops false
      else (let name = c_string (strncpy if_namesize optarg) in
          let index = if_nametoindex name in
          if index == 0
          then stops false
          else goes_on (record p {
            cfg = record p.cfg { redirect_ifname = name; redirect_ifindex = index };
          }))

  -- The switch.
  unfoldable pub handle : Opt → Settings → Step
  unfolding set_device set_redirect_device clear_modes set_mode set_force strncpy
  handle o p =
      if o.opt == b'd'
      then set_device o.optarg p
      else if o.opt == b'r'
      then set_redirect_device o.optarg p
      else if o.opt == b'A'
      then with_flags p (clear_modes p.cfg.xdp_flags)
      else if o.opt == b'S'
      then with_flags p (set_mode skb_mode p.cfg.xdp_flags)
      else if o.opt == b'N'
      then with_flags p (set_mode drv_mode p.cfg.xdp_flags)
      else if o.opt == 3
      then with_flags p (set_mode hw_mode p.cfg.xdp_flags)
      else if o.opt == b'F'
      then with_flags p (set_force p.cfg.xdp_flags)
      else if o.opt == b'U'
      then goes_on (record p { cfg = record p.cfg { do_unload = true } })
      else if o.opt == b'q'
      then goes_on (record p { verbose = false })
      else if o.opt == 1
      then goes_on (record p { cfg = record p.cfg { filename = strncpy 512 o.optarg } })
      else if o.opt == 2
      then goes_on (record p { cfg = record p.cfg { progsec = strncpy 32 o.optarg } })
      else if o.opt == b'L'
      then goes_on (record p { cfg = record p.cfg { src_mac = strncpy 18 o.optarg } })
      else if o.opt == b'R'
      then goes_on (record p { cfg = record p.cfg { dest_mac = strncpy 18 o.optarg } })
      else stops (o.opt == b'h')

  -- The loop, over all that getopt_long gives before its -1.
  unfoldable pub parse_loop : List Opt → Settings → Step
  unfolding handle
  parse_loop [] p = goes_on p
  parse_loop (o ∷ os) p = elim (handle o p) [
    | goes_on p' ↦ parse_loop os p'
    | stops full_help ↦ stops full_help
  ]

-- What a call of parse_cmdline_args comes to: it returns; or it exits, with a code and with what
-- usage prints, if it is called; or C does not say, where a table of options has no end or usage
-- writes without a bound.
pub data Outcome : Type 0 where
  returns : Settings → Outcome
  exits : ℕ → Option (List ℕ) → Outcome
  undefined : Outcome

-- `malloc` says whether there is memory; `opts` is what getopt_long gives. The copy of the table, which
-- it searches, has no end: `opts` stands for a command line whose options it finds before it runs out
-- of the copy, and where it runs out C does not say what happens.
unfoldable pub parse_cmdline_args :
    (List ℕ → ℕ) → Bool → List ℕ → List Opt → List OptionWrapper → Settings → List ℕ → Outcome
unfolding option_wrappers_to_options parse_loop usage
parse_cmdline_args if_nametoindex malloc prog_name opts options_wrapper p doc =
    elim (option_wrappers_to_options malloc options_wrapper) [
      | none ↦ undefined
      | some (err, long_options) ↦
          if not (is_pos err 0)
          then exits exit_fail_option none
          else elim (parse_loop if_nametoindex opts p) [
            | goes_on p' ↦ returns p'
            | stops full_help ↦ elim (usage prog_name doc options_wrapper full_help) [
              | none ↦ undefined
              | some text ↦ exits exit_fail_option (some text)
            ]
          ]
    ]

-- How parse_cmdline_args ends follows how the loop ends.
abbrev pub IsEndOf : Step → Outcome → Type 0
IsEndOf step (returns p) = step ≡ goes_on p
IsEndOf step (exits code text) = code ≡ exit_fail_option
IsEndOf step undefined = Unit {0}

module _ (if_nametoindex : List ℕ → ℕ) (malloc : Bool) (prog_name : List ℕ) (opts : List Opt)
    (options_wrapper : List OptionWrapper) (p : Settings) (doc : List ℕ) where
  abbrev step : Step
  step = parse_loop if_nametoindex opts p

  abbrev result : Outcome
  result = parse_cmdline_args if_nametoindex malloc prog_name opts options_wrapper p doc

  ends : (o : Outcome) → result ≡ o → IsEndOf step o → IsEndOf step result
  ends o e h = subst (IsEndOf step) (sym e) h

  pub parse_cmdline_args-IsEndOf : IsEndOf step result
  unfolding parse_cmdline_args
  parse_cmdline_args-IsEndOf =
      elim (Option-cases (option_wrappers_to_options malloc options_wrapper)) [
        | inl no_end ↦ ends undefined (rw (no_end, parse_cmdline_args) refl) tt
        | inr (copied, e) ↦ elim (Bool-cases (is_pos copied.0 0)) [
          | inr failed ↦
              ends (exits exit_fail_option none) (rw (e, parse_cmdline_args) (rw failed refl)) refl
          | inl ok ↦ elim (Step-cases step) [
            | inl (p', went) ↦
                ends (returns p') (rw (e, parse_cmdline_args) (rw ok (rw went refl))) went
            | inr (full_help, stopped) ↦
                elim (Option-cases (usage prog_name doc options_wrapper full_help)) [
                  | inl over ↦
                      ends undefined
                        (rw (e, parse_cmdline_args) (rw ok (rw stopped (rw over refl)))) tt
                  | inr (text, printed) ↦
                      ends (exits exit_fail_option (some text))
                        (rw (e, parse_cmdline_args) (rw ok (rw stopped (rw printed refl)))) refl
                ]
          ]
        ]
      ]
