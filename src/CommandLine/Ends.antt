-- ===== src/CommandLine/Ends.antt =====
-- How parse_cmdline_args ends with the tables of the two programs.
use syncookie_xdp.Prelude.{
  ℕ, ◌≡◌, ◌⊎◌, inl, inr, refl, Bool, true, false, Option, none, some, List, Bool-cases, ap, sym,
  ◌∙◌,
}
use syncookie_xdp.Loader.{exit_fail_option}
use syncookie_xdp.CommandLine.{
  Opt, Settings, parse_loop, goes_on, stops, Step-cases, parse_cmdline_args, exits, returns,
  Outcome,
}
use syncookie_xdp.CommandLine.Accepted.{goes, goes-parse_loop, all_accepted, AllTexts}
use syncookie_xdp.CommandLine.Options.{OptionWrapper, option_wrappers_to_options, count_named}
use syncookie_xdp.CommandLine.Tables.{loader_options, loader_doc, stats_options, stats_doc}
use syncookie_xdp.CommandLine.Usage.{usage}

-- A table with an end, which can be printed: the label of each entry fits into the buffer.
pub record IsPrintable (ws : List OptionWrapper) (doc : List ℕ) : Type 0 where
  pub num : ℕ
  pub ended : count_named ws ≡ some num
  pub printed :
      (prog_name : List ℕ) (full : Bool)
      → (text : List ℕ) × (usage prog_name doc ws full ≡ some text)

loader_usage :
    (prog_name : List ℕ) (full : Bool)
    → (text : List ℕ) × (usage prog_name loader_doc loader_options full ≡ some text)
unfolding usage
loader_usage prog_name true = (_, refl)
loader_usage prog_name false = (_, refl)

pub loader-IsPrintable : IsPrintable loader_options loader_doc
unfolding count_named
loader-IsPrintable = record { num = 10; ended = refl; printed = loader_usage }

stats_usage :
    (prog_name : List ℕ) (full : Bool)
    → (text : List ℕ) × (usage prog_name stats_doc stats_options full ≡ some text)
unfolding usage
stats_usage prog_name true = (_, refl)
stats_usage prog_name false = (_, refl)

pub stats-IsPrintable : IsPrintable stats_options stats_doc
unfolding count_named
stats-IsPrintable = record { num = 3; ended = refl; printed = stats_usage }

-- There is memory for the copy of the table, and each option is accepted.
abbrev pub IsAccepted : (List ℕ → ℕ) → Bool → List Opt → Type 0
IsAccepted if_nametoindex malloc opts = (malloc ≡ true) × (all_accepted if_nametoindex opts ≡ true)

module _ (if_nametoindex : List ℕ → ℕ) (ws : List OptionWrapper) (doc : List ℕ)
    (table : IsPrintable ws doc) (malloc : Bool) (prog_name : List ℕ) (opts : List Opt)
    (p : Settings) (texts : AllTexts opts) where
  abbrev result : Outcome
  result = parse_cmdline_args if_nametoindex malloc prog_name opts ws p doc

  no_memory : malloc ≡ false → result ≡ exits exit_fail_option none
  unfolding parse_cmdline_args option_wrappers_to_options
  no_memory failed =
      rw failed (rw (table.ended, parse_cmdline_args, option_wrappers_to_options) refl)

  module _ (there : malloc ≡ true) where
    on_success :
        (p' : Settings) → parse_loop if_nametoindex opts p ≡ goes_on p' → result ≡ returns p'
    unfolding parse_cmdline_args option_wrappers_to_options
    on_success p' went =
        rw there (rw (table.ended, parse_cmdline_args, option_wrappers_to_options) (rw went refl))

    on_refusal :
        (full : Bool)
        → parse_loop if_nametoindex opts p ≡ stops full
        → (text : List ℕ) × (result ≡ exits exit_fail_option (some text))
    unfolding parse_cmdline_args option_wrappers_to_options
    on_refusal full stopped =
        let (text, printed) = table.printed prog_name full in
        (
          text,
          rw there (
              rw (table.ended, parse_cmdline_args, option_wrappers_to_options)
                (rw stopped (rw printed refl))),
        )

  -- The command line is accepted, or the program exits with 2. It never runs past the end of a table.
  pub parse_cmdline_args-cases :
      (IsAccepted if_nametoindex malloc opts
        × ((p' : Settings) × (parse_loop if_nametoindex opts p ≡ goes_on p')
            × (result ≡ returns p')))
      ⊎ ((¬ IsAccepted if_nametoindex malloc opts)
          × ((text : Option (List ℕ)) × (result ≡ exits exit_fail_option text)))
  parse_cmdline_args-cases =
      let known = goes-parse_loop if_nametoindex opts p texts in
      elim (Bool-cases malloc) [
        | inr failed ↦ inr (λ a. let there = a.0 in cc, (none, no_memory failed))
        | inl there ↦ elim (Step-cases (parse_loop if_nametoindex opts p)) [
          | inl (p', went) ↦
              inl ((there, sym known ∙ ap goes went), (p', went, on_success there p' went))
          | inr (full, stopped) ↦
              let (text, printed) = on_refusal there full stopped in
              inr (λ a. let all = a.1 in let no = ap goes stopped in cc, (some text, printed))
        ]
      ]
