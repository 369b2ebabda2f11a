-- ===== src/CommandLine/Usage.antt =====
-- common/common_params.c: usage and _print_options, as the text that they print.
use syncookie_xdp.Prelude.{
  ℕ, zero, suc, ◌-◌, ◌≤◌, ◌<◌, ◌≡◌, Bool, true, false, not, Option, none, some, List, [], ◌∷◌, ◌++◌,
  if◌then◌else◌, ltb, length, codes, refl, ap, arith, Bool-cases, inl, inr, ◌⊎◌,
}
use syncookie_xdp.Loader.{snprintf}
use syncookie_xdp.CommandLine.Options.{OptionWrapper}

-- BUFSIZE, and the width of the column of names.
abbrev pub bufsize : ℕ
bufsize = 30

abbrev pub column : ℕ
column = 22

abbrev pub spaces : ℕ → List ℕ
spaces zero = []
spaces (suc n) = b' ' ∷ spaces n

-- `printf("%-22s", buf)`
abbrev pub pad : List ℕ → List ℕ
pad text = text ++ spaces (column - length text)

-- `buf`: the name and, behind it, the metavariable. `none` where the size that the second snprintf
-- gets is negative as an `int`, and so has no bound.
unfoldable pub option_label : List ℕ → Option (List ℕ) → Option (List ℕ)
unfolding snprintf
option_label name none = some (snprintf bufsize (codes " --" ++ name))
option_label name (some metavar) =
    let pos = length (codes " --" ++ name) in
    if ltb bufsize pos
    then none
    else some
        (snprintf bufsize (codes " --" ++ name) ++ snprintf (bufsize - pos) (codes " " ++ metavar))

-- `" -%c,"` for a value that is a letter.
abbrev pub option_letter : ℕ → List ℕ
option_letter val = if ltb 64 val then codes " -" ++ (val ∷ codes ",") else codes "    "

abbrev pub and_text : Option (List ℕ) → Option (List ℕ) → Option (List ℕ)
and_text none rest = none
and_text (some text) none = none
and_text (some text) (some rest) = some (text ++ rest)

abbrev pub option_line : OptionWrapper → List ℕ → Option (List ℕ)
option_line w name = elim (option_label name w.metavar) [
  | none ↦ none
  | some label ↦
      some (option_letter w.option.val ++ (pad label ++ (codes "  " ++ (w.help ++ codes "\n"))))
]

abbrev pub same : Bool → Bool → Bool
same true b = b
same false b = not b

-- _print_options, over the table up to its end; `none` also where the table has none.
unfoldable pub print_options : Bool → List OptionWrapper → Option (List ℕ)
unfolding option_label
print_options required [] = none
print_options required (w ∷ ws) =
    let rest = print_options required ws in
    elim w.option.name [
      | none ↦ some []
      | some name ↦ if same w.required required then and_text (option_line w name) rest else rest
    ]

unfoldable pub usage : List ℕ → List ℕ → List OptionWrapper → Bool → Option (List ℕ)
unfolding print_options
usage prog_name doc long_options full =
    let first = codes "Usage: " ++ (prog_name ++ codes " [options]\n") in
    if not full
    then some (first ++ codes "Use --help (or -h) to see full option list.\n")
    else and_text
        (some (first ++ (codes "\nDOCUMENTATION:\n " ++ (doc ++ codes "\nRequired options:\n"))))
        (and_text (print_options true long_options) (
          and_text (some (codes "\nOther options:\n"))
            (and_text (print_options false long_options) (some (codes "\n")))))

-- Two texts into one buffer, one after the other, are one text into it.
snprintf-append :
    (n : ℕ) (xs ys : List ℕ)
    → length xs ≤ n
    → snprintf n xs ++ snprintf (n - length xs) ys ≡ snprintf n (xs ++ ys)
unfolding snprintf
snprintf-append zero [] ys h = refl
snprintf-append (suc zero) [] ys h = refl
snprintf-append (suc (suc n)) [] ys h =
    let all : suc (suc n) - 0 ≡ suc (suc n) = omega arith in rw all refl
snprintf-append zero (x ∷ xs) ys h = absurd (omega arith)
snprintf-append (suc zero) (x ∷ xs) ys h =
    let used : 1 - suc (length xs) ≡ 0 = omega arith in rw used refl
snprintf-append (suc (suc n)) (x ∷ xs) ys h =
    let left : suc (suc n) - suc (length xs) ≡ suc n - length xs = omega arith in
    rw left (ap (◌∷◌ x) (snprintf-append (suc n) xs ys (omega arith)))

-- A name of at most 27 bytes is written with its metavariable as snprintf of both together writes
-- them into the 30 bytes of the buffer; behind a longer name, the metavariable is written without a
-- bound.
pub option_label-snprintf :
    (name metavar : List ℕ)
    → ((length name ≤ 27)
        × (option_label name (some metavar)
            ≡ some (snprintf bufsize ((codes " --" ++ name) ++ (codes " " ++ metavar)))))
      ⊎ ((27 < length name) × (option_label name (some metavar) ≡ none))
unfolding option_label
option_label-snprintf name metavar =
    elim (Bool-cases (ltb bufsize (length (codes " --" ++ name)))) [
      | inl long ↦ inr (ground arith, rw long refl)
      | inr short ↦ inl (
        ground arith,
        rw short (
            ap (λ (t : List ℕ). some t)
              (snprintf-append bufsize (codes " --" ++ name) (codes " " ++ metavar)
                (ground arith))),
      )
    ]
