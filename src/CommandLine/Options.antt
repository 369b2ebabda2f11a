-- ===== src/CommandLine/Options.antt =====
-- common/common_params.h and common/common_params.c: the table of options, and its copy for
-- getopt_long.
use syncookie_xdp.Prelude.{
  ◌++◌, ℕ, zero, suc, Bool, true, false, Option, none, some, List, [], ◌∷◌, if◌then◌else◌, ◌≡◌,
  refl, ap, length, Option-cases, ◌⊎◌, inl, inr, arith,
}
use syncookie_xdp.Prelude.Int.{ℤ, pos, negsuc}

-- struct option of getopt.h, whose `flag` is NULL everywhere. A name is `none` for NULL.
pub record LongOption : Type 0 where
  pub name : Option (List ℕ)
  pub has_arg : ℕ
  pub val : ℕ

pub record OptionWrapper : Type 0 where
  pub option : LongOption
  pub help : List ℕ
  pub metavar : Option (List ℕ)
  pub required : Bool

-- `for (i = 0; wrapper[i].option.name != 0; i++) {}`: where it ends, or `none` if it runs past the
-- end of the array.
unfoldable pub count_named : List OptionWrapper → Option ℕ
count_named [] = none
count_named (w ∷ ws) =
    let rest = count_named ws in
    elim w.option.name [
      | none ↦ some 0
      | some name ↦ elim rest [ none ↦ none | some n ↦ some (suc n) ]
    ]

-- The loop that copies `num` options.
unfoldable pub copy_options : ℕ → List OptionWrapper → List LongOption
copy_options zero ws = []
copy_options (suc num) [] = []
copy_options (suc num) (w ∷ ws) = w.option ∷ copy_options num ws

-- The code that is returned and what `*options` points to. `malloc` says whether there is memory.
unfoldable pub option_wrappers_to_options : Bool → List OptionWrapper → Option (ℤ × List LongOption)
unfolding count_named copy_options
option_wrappers_to_options malloc wrapper = elim (count_named wrapper) [
  | none ↦ none
  | some num ↦ if malloc then some (pos 0, copy_options num wrapper) else some (negsuc 0, [])
]

-- The same search for an end in the copy, as getopt_long makes it: whether it is found.
unfoldable pub is_ended : List LongOption → Bool
is_ended [] = false
is_ended (o ∷ os) = elim o.name [ none ↦ true | some name ↦ is_ended os ]

-- What a count says of the first entry.
count-cases :
    (w : OptionWrapper) (ws : List OptionWrapper) (num : ℕ)
    → count_named (w ∷ ws) ≡ some num
    → ((w.option.name ≡ none) × (num ≡ 0))
      ⊎ ((name : List ℕ) × (n : ℕ) × ((w.option.name ≡ some name)
            × ((count_named ws ≡ some n) × (num ≡ suc n))))
unfolding count_named
count-cases w ws num h = elim (Option-cases w.option.name) [
  | inl null ↦ inl (null, cc)
  | inr (name, named) ↦ elim (Option-cases (count_named ws)) [
    | inl past ↦ absurd (cc)
    | inr (n, rest) ↦ inr (name, n, (named, (rest, ground arith)))
  ]
]

-- The entries of a table.
abbrev pub options_of : List OptionWrapper → List LongOption
options_of [] = []
options_of (w ∷ ws) = w.option ∷ options_of ws

-- A table is a copy, of `num` entries that all have a name, with an end behind it and perhaps more.
pub record IsCopy (ws : List OptionWrapper) (num : ℕ) (os : List LongOption) : Type 0 where
  pub end_entry : LongOption
  pub behind : List LongOption
  pub entries : options_of ws ≡ os ++ (end_entry ∷ behind)
  pub end_entry-null : end_entry.name ≡ none
  pub count : length os ≡ num
  pub named : is_ended os ≡ false

copy_options-IsCopy :
    (ws : List OptionWrapper) (num : ℕ)
    → count_named ws ≡ some num
    → IsCopy ws num (copy_options num ws)
unfolding copy_options is_ended count_named
copy_options-IsCopy [] num h = absurd (cc)
copy_options-IsCopy (w ∷ ws) num h = elim (count-cases w ws num h) [
  | inl (null, e) ↦ rw e (record {
    end_entry = w.option;
    behind = options_of ws;
    entries = refl;
    end_entry-null = null;
    count = refl;
    named = refl;
  })
  | inr (name, n, (named, (rest, e))) ↦
      let others = copy_options-IsCopy ws n rest in
      rw e (record {
        end_entry = others.end_entry;
        behind = others.behind;
        entries = ap (λ (os : List LongOption). w.option ∷ os) others.entries;
        end_entry-null = others.end_entry-null;
        count = ap suc others.count;
        named = rw named others.named;
      })
]

-- For a table of options that has an end, and if there is memory, the copy is returned with 0 and is
-- the table up to its first entry without a name, each entry in its place, and without that end: a
-- search for its end runs out of it.
pub option_wrappers_to_options-IsCopy :
    (ws : List OptionWrapper) (num : ℕ)
    → count_named ws ≡ some num
    → (os : List LongOption) × ((option_wrappers_to_options true ws ≡ some (pos 0, os))
        × IsCopy ws num os)
unfolding option_wrappers_to_options
option_wrappers_to_options-IsCopy ws num h =
    (copy_options num ws, (rw (h, option_wrappers_to_options) refl, copy_options-IsCopy ws num h))
