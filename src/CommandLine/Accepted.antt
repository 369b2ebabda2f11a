-- ===== src/CommandLine/Accepted.antt =====
-- Which command lines are accepted, and what they leave in struct config.
use syncookie_xdp.Prelude.{
  ℕ, zero, suc, ◌≤◌, ◌<◌, ◌≡◌, ◌≢◌, ◌⊎◌, inl, inr, refl, Bool, true, false, not, ◌||◌, ◌&&◌, List,
  [], ◌∷◌, ◌++◌, ◌==◌, if◌then◌else◌, Bool-cases, ap, ◌∙◌, sym, arith, length, ltb,
}
use syncookie_xdp.Loader.{c_string, strncpy}
use syncookie_xdp.CommandLine.{
  Opt, Settings, Step, goes_on, stops, if_namesize, set_device, set_redirect_device, handle,
  parse_loop, Step-cases,
}

-- A text of C has no 0 before its end.
abbrev pub IsText : List ℕ → Type 0
IsText [] = Unit {0}
IsText (b ∷ s) = (b ≢ 0) × IsText s

abbrev pub take : ℕ → List ℕ → List ℕ
take zero s = []
take (suc n) [] = []
take (suc n) (b ∷ s) = b ∷ take n s

-- A text that strncpy puts into `n` bytes is read back if it is shorter than that; else only its
-- first `n` bytes are there, and who reads it goes on into the bytes behind.
pub c_string-strncpy :
    (n : ℕ) (s rest : List ℕ)
    → IsText s
    → ((length s < n) × (c_string (strncpy n s ++ rest) ≡ s))
      ⊎ ((n ≤ length s) × (c_string (strncpy n s ++ rest) ≡ take n s ++ c_string rest))
unfolding strncpy
c_string-strncpy zero s rest h = inr (omega arith, refl)
c_string-strncpy (suc n) [] rest h = inl (omega arith, refl)
c_string-strncpy (suc n) (b ∷ s) rest (nonzero, h) = elim (c_string-strncpy n s rest h) [
  | inl (short, e) ↦ inl (omega arith, ground (arith, e))
  | inr (long, e) ↦ inr (omega arith, ground (arith, e))
]

pub c_string-strncpy_short :
    (n : ℕ) (s : List ℕ) → IsText s → length s < n → c_string (strncpy n s) ≡ s
unfolding strncpy
c_string-strncpy_short zero s h short = absurd (omega arith)
c_string-strncpy_short (suc n) [] h short = refl
c_string-strncpy_short (suc n) (b ∷ s) (nonzero, h) short =
    ground (arith, c_string-strncpy_short n s h (omega arith))

abbrev pub AllTexts : List Opt → Type 0
AllTexts [] = Unit {0}
AllTexts (o ∷ os) = IsText o.optarg × AllTexts os

-- The options that take no name of a device.
abbrev pub is_known : ℕ → Bool
is_known opt =
    (opt == b'A')
    || (opt == b'S')
    || (opt == b'N')
    || (opt == 3)
    || (opt == b'F')
    || (opt == b'U')
    || (opt == b'q')
    || (opt == 1)
    || (opt == 2)
    || (opt == b'L')
    || (opt == b'R')

abbrev pub goes : Step → Bool
goes (goes_on p) = true
goes (stops full_help) = false

module _ (if_nametoindex : List ℕ → ℕ) where
  -- An option with the name of a device needs a short name of a device that there is.
  abbrev pub accepted : Opt → Bool
  accepted o =
      if (o.opt == b'd') || (o.opt == b'r')
      then ltb (length o.optarg) if_namesize && not (if_nametoindex o.optarg == 0)
      else is_known o.opt

  abbrev pub all_accepted : List Opt → Bool
  all_accepted [] = true
  all_accepted (o ∷ os) = accepted o && all_accepted os

  goes-handle :
      (o : Opt) (p : Settings) → IsText o.optarg → goes (handle if_nametoindex o p) ≡ accepted o
  unfolding handle set_device set_redirect_device
  goes-handle o p text = elim (Bool-cases (ltb (length o.optarg) if_namesize)) [
    | inl short ↦
        let name = c_string-strncpy_short if_namesize o.optarg text (ground arith) in
        let index = ap if_nametoindex name in ground arith
    | inr long ↦ ground arith
  ]

  -- A command line is accepted exactly if each of its options is: one without the name of a device
  -- is among those that the switch knows, and the name of a device is shorter than 16 bytes and
  -- known to if_nametoindex. This does not depend on the settings before it.
  pub goes-parse_loop :
      (os : List Opt) (p : Settings)
      → AllTexts os
      → goes (parse_loop if_nametoindex os p) ≡ all_accepted os
  unfolding parse_loop
  goes-parse_loop [] p texts = refl
  goes-parse_loop (o ∷ os) p (text, texts) =
      let first = goes-handle o p text in
      elim (Step-cases (handle if_nametoindex o p)) [
        | inl (q, went) ↦
            let rest = goes-parse_loop os q texts in
            let yes : accepted o ≡ true = sym first ∙ ap goes went in
            rw (went, parse_loop) (rw yes rest)
        | inr (full_help, stopped) ↦
            let no : accepted o ≡ false = sym first ∙ ap goes stopped in
            rw (stopped, parse_loop) (rw no refl)
      ]
