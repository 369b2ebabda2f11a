-- ===== src/Loader/Names.antt =====
-- The names of the object file and of the section, as loader/xdp_loader.c reads them from struct config.
use syncookie_xdp.Prelude.{
  ℕ, ◌≤◌, ◌<◌, ◌≡◌, ◌⊎◌, inl, inr, refl, ◌∙◌, some, List, [], ◌∷◌, ◌++◌, ◌==◌, arith, length,
  Option-cases, Bool-cases, some_inj, none_ne_some, subst, sym,
}
use syncookie_xdp.Loader.{c_string, strncpy, filename_string, progsec_string}
use syncookie_xdp.Loader.Program.{initial_settings}
use syncookie_xdp.CommandLine.{Opt, Settings, parse_loop, goes_on}
use syncookie_xdp.CommandLine.Accepted.{IsText, AllTexts, take, c_string-strncpy}
use syncookie_xdp.CommandLine.Fields.{last_arg, set_by, parse_loop-IsParsed}
use syncookie_xdp.CommandLine.Tables.{default_filename}

last_arg-IsText :
    (opt : ℕ) (os : List Opt) (arg : List ℕ) → AllTexts os → last_arg opt os ≡ some arg → IsText arg
last_arg-IsText opt [] arg texts e = absurd (none_ne_some e)
last_arg-IsText opt (o ∷ os) arg (text, texts) e = elim (Option-cases (last_arg opt os)) [
  | inr (later, e') ↦ last_arg-IsText opt os arg texts (e' ∙ (rw e' at e))
  | inl none_later ↦ elim (Bool-cases (o.opt == opt)) [
    | inl here ↦ subst IsText (some_inj (rw here at (rw none_later at e))) text
    | inr there ↦ absurd (none_ne_some (rw there at (rw none_later at e)))
  ]
]

-- The text of an option, or what stands for it.
abbrev pub text_of : ℕ → List ℕ → List Opt → List ℕ
text_of opt default os = set_by (last_arg opt os) (λ arg. arg) default

text_of-IsText :
    (opt : ℕ) (default : List ℕ) (os : List Opt)
    → IsText default
    → AllTexts os
    → IsText (text_of opt default os)
text_of-IsText opt default os text texts = elim (Option-cases (last_arg opt os)) [
  | inl unnamed ↦ rw unnamed text
  | inr (arg, named) ↦ rw named (last_arg-IsText opt os arg texts named)
]

strncpy-text_of :
    (n opt : ℕ) (default : List ℕ) (os : List Opt)
    → set_by (last_arg opt os) (strncpy n) (strncpy n default) ≡ strncpy n (text_of opt default os)
strncpy-text_of n opt default os = elim (Option-cases (last_arg opt os)) [
  | inl unnamed ↦ rw unnamed refl
  | inr (arg, named) ↦ rw named refl
]

-- A name in an array of `n` bytes is read as it was given if it is shorter than the array. Otherwise its
-- first `n` bytes are read, and then what stands behind the array.
abbrev pub IsRead : ℕ → List ℕ → List ℕ → List ℕ → Type 0
IsRead n name behind read =
    ((length name < n) × (read ≡ name)) ⊎ ((n ≤ length name) × (read ≡ take n name ++ behind))

-- Behind an accepted command line, the loader reads the name of the object file that is given last, or the
-- default, if it has less than 512 bytes, and else its first 512 bytes with the name of the section behind
-- them, which stands there in struct config; and it reads the name of the section that is given last if
-- it has less than 32 bytes, and else its first 32 with the MAC addresses behind them. This is for
-- texts as getopt_long gives them.
pub parse_loop-IsRead :
    (if_nametoindex : List ℕ → ℕ) (os : List Opt) (p : Settings)
    → AllTexts os
    → parse_loop if_nametoindex os initial_settings ≡ goes_on p
    → IsRead 512 (text_of 1 default_filename os) (progsec_string p.cfg) (filename_string p.cfg)
      × IsRead 32
          (text_of 2 [] os)
          (c_string (p.cfg.src_mac ++ p.cfg.dest_mac))
          (progsec_string p.cfg)
unfolding initial_settings
parse_loop-IsRead if_nametoindex os p texts went =
    let parsed = parse_loop-IsParsed if_nametoindex os initial_settings p texts went in
    let file = parsed.filename ∙ strncpy-text_of 512 1 default_filename os in
    let section = parsed.progsec ∙ strncpy-text_of 32 2 [] os in
    let after : List ℕ = p.cfg.src_mac ++ p.cfg.dest_mac in
    (
      subst
          (λ (b : List ℕ).
            IsRead 512 (text_of 1 default_filename os) (progsec_string p.cfg)
              (c_string (b ++ (p.cfg.progsec ++ after))))
          (sym file)
          (c_string-strncpy 512 (text_of 1 default_filename os) (p.cfg.progsec ++ after)
            (text_of-IsText 1 default_filename os (omega arith) texts)),
      subst (λ (b : List ℕ). IsRead 32 (text_of 2 [] os) (c_string after) (c_string (b ++ after)))
          (sym section)
          (c_string-strncpy 32 (text_of 2 [] os) after (text_of-IsText 2 [] os tt texts)),
    )
