-- ===== src/CommandLine/Fields.antt =====
-- The fields of struct config behind an accepted command line: the last option for each counts.
use syncookie_xdp.Prelude.{
  ℕ, ◌≡◌, inl, inr, Bool, false, not, ◌||◌, ◌&&◌, Option, none, some, List, [], ◌∷◌, ◌==◌,
  if◌then◌else◌, Bool-cases, Option-cases, ap, ◌∙◌, arith, length, ltb,
}
use syncookie_xdp.Loader.{strncpy}
use syncookie_xdp.CommandLine.{
  Opt, Settings, goes_on, if_namesize, set_device, set_redirect_device, handle, parse_loop,
  Step-cases,
}
use syncookie_xdp.CommandLine.Accepted.{IsText, AllTexts, c_string-strncpy_short}

-- The text of the last option with a value.
abbrev pub last_arg : ℕ → List Opt → Option (List ℕ)
last_arg opt [] = none
last_arg opt (o ∷ os) =
    let later = last_arg opt os in
    elim later [ some arg ↦ some arg | none ↦ if o.opt == opt then some o.optarg else none ]

abbrev pub has_opt : ℕ → List Opt → Bool
has_opt opt [] = false
has_opt opt (o ∷ os) = (o.opt == opt) || has_opt opt os

-- A field that an option sets.
abbrev pub set_by {ℓ} : {A : Type ℓ} → Option (List ℕ) → (List ℕ → A) → A → A
set_by none f old = old
set_by (some arg) f old = f arg

module _ (if_nametoindex : List ℕ → ℕ) where
  -- The device is the last one named, the names of the object file and of the section are those
  -- given last, cut to 512 and 32 bytes, and what is not given is as before.
  pub record IsParsed (os : List Opt) (old new : Settings) : Type 0 where
    pub ifindex :
        new.cfg.ifindex
        ≡ set_by (last_arg b'd' os) (λ arg. some (if_nametoindex arg)) old.cfg.ifindex
    pub ifname : new.cfg.ifname ≡ set_by (last_arg b'd' os) (λ arg. arg) old.cfg.ifname
    pub do_unload : new.cfg.do_unload ≡ (old.cfg.do_unload || has_opt b'U' os)
    pub filename : new.cfg.filename ≡ set_by (last_arg 1 os) (strncpy 512) old.cfg.filename
    pub progsec : new.cfg.progsec ≡ set_by (last_arg 2 os) (strncpy 32) old.cfg.progsec
    pub verbose : new.verbose ≡ (old.verbose && not (has_opt b'q' os))

  handle-IsParsed :
      (o : Opt) (p q : Settings)
      → IsText o.optarg
      → handle if_nametoindex o p ≡ goes_on q
      → IsParsed (o ∷ []) p q
  unfolding handle set_device set_redirect_device
  handle-IsParsed o p q text h = elim (Bool-cases (ltb (length o.optarg) if_namesize)) [
    | inl short ↦
        let name = c_string-strncpy_short if_namesize o.optarg text (ground arith) in
        record {
          ifindex = ground (arith, ap if_nametoindex name);
          ifname = ground (arith, name);
          do_unload = ground arith;
          filename = ground arith;
          progsec = ground arith;
          verbose = ground arith;
        }
    | inr long ↦ record {
      ifindex = ground arith;
      ifname = ground arith;
      do_unload = ground arith;
      filename = ground arith;
      progsec = ground arith;
      verbose = ground arith;
    }
  ]

  set_by-last_arg {ℓ} :
      {A : Type ℓ} (opt : ℕ) (o : Opt) (os : List Opt) (f : List ℕ → A) (old mid new : A)
      → mid ≡ set_by (last_arg opt (o ∷ [])) f old
      → new ≡ set_by (last_arg opt os) f mid
      → new ≡ set_by (last_arg opt (o ∷ os)) f old
  set_by-last_arg opt o os f old mid new first rest = elim (Option-cases (last_arg opt os)) [
    | inl e ↦ rest ∙ ground (arith, first)
    | inr (arg, e) ↦ rest ∙ ground arith
  ]

  -- For texts as getopt_long gives them, an accepted command line leaves in struct config the last
  -- device that is named, with its index, the last names of an object file and of a section, cut to
  -- 512 and 32 bytes, whether to unload, and in `verbose` whether to be quiet; a field without an
  -- option is as it was.
  pub parse_loop-IsParsed :
      (os : List Opt) (p p' : Settings)
      → AllTexts os
      → parse_loop if_nametoindex os p ≡ goes_on p'
      → IsParsed os p p'
  unfolding parse_loop
  parse_loop-IsParsed [] p p' texts e = record {
    ifindex = ground arith;
    ifname = ground arith;
    do_unload = ground arith;
    filename = ground arith;
    progsec = ground arith;
    verbose = ground arith;
  }
  parse_loop-IsParsed (o ∷ os) p p' (text, texts) e =
      elim (Step-cases (handle if_nametoindex o p)) [
        | inr (full_help, stopped) ↦ absurd (ground arith)
        | inl (q, went) ↦
            let a = handle-IsParsed o p q text went in
            let b = parse_loop-IsParsed os q p' texts (rw (went, parse_loop) at e) in
            record {
              ifindex =
                  set_by-last_arg b'd' o os (λ arg. some (if_nametoindex arg)) p.cfg.ifindex
                    q.cfg.ifindex p'.cfg.ifindex a.ifindex b.ifindex;
              ifname =
                  set_by-last_arg b'd' o os (λ arg. arg) p.cfg.ifname q.cfg.ifname p'.cfg.ifname
                    a.ifname b.ifname;
              do_unload = let x = a.do_unload in let y = b.do_unload in ground arith;
              filename =
                  set_by-last_arg 1 o os (strncpy 512) p.cfg.filename q.cfg.filename p'.cfg.filename
                    a.filename b.filename;
              progsec =
                  set_by-last_arg 2 o os (strncpy 32) p.cfg.progsec q.cfg.progsec p'.cfg.progsec
                    a.progsec b.progsec;
              verbose = let x = a.verbose in let y = b.verbose in ground arith;
            }
      ]
