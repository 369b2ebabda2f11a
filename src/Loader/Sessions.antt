-- ===== src/Loader/Sessions.antt =====
-- The loader called again and again, with its command lines.
use syncookie_xdp.Prelude.{
  ℕ, ◌≡◌, ◌≢◌, ◌∙◌, refl, sym, Bool, Option, none, some, List, [], ◌∷◌, Option-cases, some_inj, inl,
  inr, none_ne_some,
}
use syncookie_xdp.Attach.{Libbpf}
use syncookie_xdp.Loader.{LibbpfObjects, main}
use syncookie_xdp.Loader.Attached.{IsPinning}
use syncookie_xdp.Loader.Elsewhere.{IsApart, main-elsewhere}
use syncookie_xdp.Loader.Program.{initial_settings, after_parsing, run_program}
use syncookie_xdp.CommandLine.{Opt, Settings, parse_loop, goes_on}
use syncookie_xdp.CommandLine.Tables.{loader_options, loader_doc}
use syncookie_xdp.CommandLine.Ends.{loader-IsPrintable, parse_cmdline_args-cases}
use syncookie_xdp.CommandLine.Accepted.{AllTexts}
use syncookie_xdp.CommandLine.Fields.{last_arg, parse_loop-IsParsed}

-- A call of the loader: whether there is memory, its name, and what getopt_long gives.
pub record Call : Type 0 where
  pub malloc : Bool
  pub prog_name : List ℕ
  pub opts : List Opt

module _ (if_nametoindex : List ℕ → ℕ) where
  -- The last device of the command line, if it names one, is another.
  pub record IsElsewhere (j : ℕ) (c : Call) : Type 0 where
    pub texts : AllTexts c.opts
    pub other : (name : List ℕ) → last_arg b'd' c.opts ≡ some name → if_nametoindex name ≢ j

  abbrev pub AllElsewhere : ℕ → List Call → Type 0
  AllElsewhere j [] = Unit
  AllElsewhere j (c ∷ cs) = IsElsewhere j c × AllElsewhere j cs

  elsewhere-ifindex :
      (j : ℕ) (c : Call) (p : Settings)
      → IsElsewhere j c
      → parse_loop if_nametoindex c.opts initial_settings ≡ goes_on p
      → p.cfg.ifindex ≢ some j
  unfolding initial_settings
  elsewhere-ifindex j c p away went =
      let parsed = parse_loop-IsParsed if_nametoindex c.opts initial_settings p away.texts went in
      elim (Option-cases (last_arg b'd' c.opts)) [
        | inl unnamed ↦ λ same. none_ne_some (sym (rw unnamed at parsed.ifindex) ∙ same)
        | inr (name, named) ↦
            λ same. away.other name named (some_inj (sym (rw named at parsed.ifindex) ∙ same))
      ]

module _ {ℓ} {K : Type ℓ} (lib : Libbpf K) (objects : LibbpfObjects K)
    (if_nametoindex : List ℕ → ℕ) where
  -- The kernel after one call after another.
  unfoldable pub calls : List Call → K → Option K
  calls [] k = some k
  calls (c ∷ cs) k = elim (run_program lib objects if_nametoindex c.malloc c.prog_name c.opts k) [
    | none ↦ none
    | some (code, k') ↦ calls cs k'
  ]

  module _ (attached : ℕ → ℕ → K → Option ℕ) (pinning : IsPinning objects attached)
      (apart : IsApart lib objects attached) (j flags : ℕ) where
    call-elsewhere :
        (c : Call) (k : K)
        → IsElsewhere if_nametoindex j c
        → (code : ℕ) × (k' : K) × (run_program lib objects if_nametoindex c.malloc c.prog_name
              c.opts k
            ≡ some (code, k'))
          × (attached j flags k' ≡ attached j flags k)
    unfolding run_program after_parsing
    call-elsewhere c k away =
        elim (parse_cmdline_args-cases if_nametoindex loader_options loader_doc loader-IsPrintable
          c.malloc c.prog_name c.opts initial_settings away.texts) [
            | inr (refused, (text, printed)) ↦ (2, k, rw printed refl, refl)
            | inl (accepted, (p, went, returned)) ↦
                let r = main lib objects p.cfg k in
                (
                  r.0,
                  r.1,
                  rw returned refl,
                  main-elsewhere lib objects attached pinning j flags apart p.cfg k
                      (elsewhere-ifindex if_nametoindex j c p away went),
                )
          ]

    -- However often the loader is called for other devices, with whatever command lines and exit
    -- codes, each call ends, and what is attached to a device in any mode stays. This is for texts as
    -- getopt_long gives them, and for a libbpf whose calls are about one device, and attach nothing when
    -- they load or pin.
    pub calls-elsewhere :
        (cs : List Call) (k : K)
        → AllElsewhere if_nametoindex j cs
        → (k' : K) × (calls cs k ≡ some k') × (attached j flags k' ≡ attached j flags k)
    unfolding calls
    calls-elsewhere [] k away = (k, refl, refl)
    calls-elsewhere (c ∷ cs) k (first, others) =
        let (code, k1, run, same) = call-elsewhere c k first in
        let (k', rest, still) = calls-elsewhere cs k1 others in
        (k', rw (run, calls) rest, still ∙ same)
