-- ===== src/Attach/Kernel.antt =====
-- What attaching and detaching leave attached, for a libbpf that does what it documents.
use syncookie_xdp.Prelude.{
  ℕ, ◌+◌, ◌*◌, ◌/◌, ◌%◌, ◌^◌, ◌<◌, ◌≡◌, ◌≢◌, ◌⊎◌, inl, inr, Bool, true, false, not, ◌&&◌, refl, ap,
  ap₂, sym, subst, arith, ◌==◌, ◌∙◌, Option, none, some, if◌then◌else◌, Bool-cases,
}
use syncookie_xdp.Prelude.Int.{ℤ, pos, negsuc, is_pos, is_pos_iff}
use syncookie_xdp.Attach.{
  Libbpf, no_fd, any_flag, update_if_noexist, modes, other_mode, set_or_replace, xdp_link_attach,
  xdp_link_detach, exit_ok, exit_fail, exit_fail_xdp, is_negative, is_eexist,
}
use syncookie_xdp.Attach.Flags.{other_mode-eq}

-- The flags for the opposite of a mode, as numbers: the generic mode (2) for the driver's, and the
-- driver's (4) for the generic.
abbrev pub opposite : ℕ → ℕ
opposite flags = flags / 16 * 16 + flags % 2 + (if flags / 2 % 2 == 1 then 4 else 2)

flag_off : (a b : Bool) → a && not b ≡ true → b ≡ false
flag_off true true h = absurd (ground arith)
flag_off true false h = refl
flag_off false b h = absurd (ground arith)

negative_nonzero : (e : ℤ) → is_negative e ≡ true → is_pos e 0 ≡ false
negative_nonzero (pos m) h = absurd (ground arith)
negative_nonzero (negsuc m) h = refl

module _ {ℓ} {K : Type ℓ} (lib : Libbpf K) where
  -- `attached i flags k` is the id of the program of device `i` in the mode of the flags, and
  -- `program fd` the id behind a descriptor: none behind -1.
  -- bpf_set_link_xdp_fd gives 0, and then it has put the program in the mode of the flags, or a
  -- negative number, and then it has done nothing. The opposite of a given mode it leaves alone, and
  -- its error is -EEXIST only if there is a program in the opposite mode.
  -- bpf_get_link_xdp_id, where it gives 0, gives the id of a program, or 0 for none. Where a device has
  -- programs in several modes, this is the one in the mode of the flags, or 0 if these give none; else
  -- it is the only program, whatever its mode.
  pub record IsLink (attached : ℕ → ℕ → K → Option ℕ) (program : ℤ → Option ℕ) : Type ℓ where
    pub program-none : program no_fd ≡ none
    pub set-cases :
        (i : ℕ) (fd : ℤ) (flags : ℕ) (k : K)
        → (((lib.set_link_xdp_fd i fd flags k).0 ≡ pos 0)
            × (attached i flags (lib.set_link_xdp_fd i fd flags k).1 ≡ program fd))
          ⊎ ((is_negative (lib.set_link_xdp_fd i fd flags k).0 ≡ true)
              × ((lib.set_link_xdp_fd i fd flags k).1 ≡ k))
    pub set-opposite :
        (i : ℕ) (fd : ℤ) (flags : ℕ) (k : K)
        → any_flag flags modes ≡ true
        → attached i (opposite flags) (lib.set_link_xdp_fd i fd flags k).1
          ≡ attached i (opposite flags) k
    pub set-eexist :
        (i : ℕ) (fd : ℤ) (flags : ℕ) (k : K)
        → attached i (opposite flags) k ≡ none
        → is_eexist (lib.set_link_xdp_fd i fd flags k).0 ≡ false
    pub get-none :
        (i flags : ℕ) (k : K)
        → lib.get_link_xdp_id i flags k ≡ (pos 0, 0)
        → (attached i flags k ≡ none) ⊎ (any_flag flags modes ≡ false)
    pub get-some :
        (i flags id : ℕ) (k : K)
        → lib.get_link_xdp_id i flags k ≡ (pos 0, id)
        → id ≢ 0
        → (attached i flags k ≡ some id)
          ⊎ ((attached i flags k ≡ none) × ((mode : ℕ) × (attached i mode k ≡ some id)))

  module _ (attached : ℕ → ℕ → K → Option ℕ) (program : ℤ → Option ℕ)
      (link : IsLink attached program) (i flags : ℕ) (k : K) where
    -- The kernel refuses the program on a state, with an error that is not -EEXIST, or with any if the
    -- flags have XDP_FLAGS_UPDATE_IF_NOEXIST.
    abbrev pub IsRefused : ℤ → K → Type 0
    IsRefused fd k' =
        (is_negative (lib.set_link_xdp_fd i fd flags k').0 ≡ true)
        × ((is_eexist (lib.set_link_xdp_fd i fd flags k').0
              && not (any_flag flags update_if_noexist))
            ≡ false)

    -- What a call leaves where `other` are the flags of the retry: the program; or an error with the
    -- kernel as it was, because it refuses the program or the removal of the other; or an error with
    -- the other removed.
    abbrev IsLeft : ℕ → ℤ → ℤ × K → Type ℓ
    IsLeft other fd (err, k') =
        ((is_negative err ≡ false) × (attached i flags k' ≡ program fd))
        ⊎ ((is_negative err ≡ true)
            × (((k' ≡ k)
                  × (IsRefused fd k
                      ⊎ ((any_flag flags update_if_noexist ≡ false)
                          × (is_negative (lib.set_link_xdp_fd i no_fd other k).0 ≡ true))))
                ⊎ ((any_flag flags update_if_noexist ≡ false)
                    × ((attached i other k' ≡ none)
                        × (is_negative (lib.set_link_xdp_fd i fd flags k').0 ≡ true)))))

    -- What xdp_link_attach leaves: 0 and the program; or 30 and the kernel as it was, because it
    -- refuses the program, or the removal of the one in the opposite mode; or 30 and no program in the
    -- opposite mode, because it refuses the program even so.
    abbrev pub IsAttached : ℤ → ℕ × K → Type ℓ
    IsAttached fd r =
        ((r.0 ≡ exit_ok) × (attached i flags r.1 ≡ program fd))
        ⊎ ((r.0 ≡ exit_fail_xdp)
            × (((r.1 ≡ k)
                  × (IsRefused fd k
                      ⊎ ((any_flag flags update_if_noexist ≡ false)
                          × (is_negative (lib.set_link_xdp_fd i no_fd (opposite flags) k).0
                              ≡ true))))
                ⊎ ((any_flag flags update_if_noexist ≡ false)
                    × ((attached i (opposite flags) r.1 ≡ none) × IsRefused fd r.1))))

    module _ (fd : ℤ) where
      abbrev first : ℤ × K
      first = lib.set_link_xdp_fd i fd flags k

      abbrev removed : ℤ × K
      removed = lib.set_link_xdp_fd i no_fd (other_mode flags) first.1

      abbrev again : ℤ × K
      again = lib.set_link_xdp_fd i fd flags removed.1

      abbrev replaces : Bool
      replaces = is_eexist first.0 && not (any_flag flags update_if_noexist)

      first-only : replaces ≡ false → set_or_replace lib i flags fd k ≡ first
      unfolding set_or_replace
      first-only h = rw h refl

      removed-only :
          replaces ≡ true → is_pos removed.0 0 ≡ false → set_or_replace lib i flags fd k ≡ removed
      unfolding set_or_replace
      removed-only h e = rw h (rw e refl)

      all-three :
          replaces ≡ true → is_pos removed.0 0 ≡ true → set_or_replace lib i flags fd k ≡ again
      unfolding set_or_replace
      all-three h e = rw h (rw e refl)

      kept :
          first.1 ≡ k
          → replaces ≡ true
          → IsLeft (other_mode flags) fd (set_or_replace lib i flags fd k)
      kept same h =
          let noexist = flag_off (is_eexist first.0) (any_flag flags update_if_noexist) h in
          elim (link.set-cases i no_fd (other_mode flags) first.1) [
            | inl (ok, gone) ↦
                let three = sym (all-three h (ap (λ (e : ℤ). is_pos e 0) ok)) in
                elim (link.set-cases i fd flags removed.1) [
                  | inl (fine, there) ↦
                      subst (IsLeft (other_mode flags) fd) three (inl (ap is_negative fine, there))
                  | inr (failed, last) ↦ subst (IsLeft (other_mode flags) fd) three (
                      inr (
                        failed,
                        inr (
                          noexist,
                          (
                            ap (attached i (other_mode flags)) last ∙ (gone ∙ link.program-none),
                            subst
                                (λ (u : K). is_negative (lib.set_link_xdp_fd i fd flags u).0 ≡ true)
                                (sym last) failed,
                          ),
                        ),
                      ))
                ]
            | inr (failed, still) ↦
                subst (IsLeft (other_mode flags) fd)
                  (sym (removed-only h (negative_nonzero removed.0 failed)))
                  (inr (
                    failed,
                    inl (
                      still ∙ same,
                      inr (
                        noexist,
                        subst
                            (λ (u : K).
                              is_negative (lib.set_link_xdp_fd i no_fd (other_mode flags) u).0
                              ≡ true)
                            same failed,
                      ),
                    ),
                  ))
          ]

      set_or_replace-IsLeft : IsLeft (other_mode flags) fd (set_or_replace lib i flags fd k)
      set_or_replace-IsLeft = elim (link.set-cases i fd flags k) [
        | inl (ok, there) ↦
            subst (IsLeft (other_mode flags) fd)
              (sym (
                first-only
                  (ap (λ (e : ℤ). is_eexist e && not (any_flag flags update_if_noexist)) ok)))
              (inl (ap is_negative ok, there))
        | inr (failed, same) ↦ elim (Bool-cases replaces) [
          | inl h ↦ kept same h
          | inr h ↦
              subst (IsLeft (other_mode flags) fd) (sym (first-only h))
                (inr (failed, inl (same, inl (failed, h))))
        ]
      ]

      -- If xdp_link_attach returns 0, the program is attached.
      pub xdp_link_attach-zero :
          (xdp_link_attach lib i flags fd k).0 ≡ exit_ok
          → attached i flags (xdp_link_attach lib i flags fd k).1 ≡ program fd
      unfolding xdp_link_attach
      xdp_link_attach-zero h = elim set_or_replace-IsLeft [
        | inl (fine, there) ↦ there
        | inr (failed, rest) ↦ absurd (ground arith)
      ]

      after_removal :
          (k' : K)
          → attached i (opposite flags) k' ≡ none
          → is_negative (lib.set_link_xdp_fd i fd flags k').0 ≡ true
          → IsRefused fd k'
      after_removal k' gone failed =
          let other = link.set-eexist i fd flags k' gone in (failed, ground arith)

      -- For flags in 32 bits and a libbpf that does what it documents: xdp_link_attach returns 0 with
      -- the program attached; or 30 with the kernel as it was, because the kernel refuses the program, or,
      -- without XDP_FLAGS_UPDATE_IF_NOEXIST, the removal in the opposite mode; or, without that flag,
      -- 30 with nothing attached in the opposite mode, because the kernel refuses the program even so,
      -- with another error than -EEXIST.
      pub xdp_link_attach-outcome :
          flags < 2 ^ 32 → IsAttached fd (xdp_link_attach lib i flags fd k)
      unfolding xdp_link_attach
      xdp_link_attach-outcome word =
          elim (subst (λ (f : ℕ). IsLeft f fd (set_or_replace lib i flags fd k))
            (other_mode-eq flags word) set_or_replace-IsLeft) [
              | inl (fine, there) ↦ inl (ground arith, there)
              | inr (failed, inl kept_all) ↦ inr (ground arith, inl kept_all)
              | inr (failed, inr (noexist, (gone, refused))) ↦ inr (
                ground arith,
                inr (
                  noexist,
                  (gone, after_removal (set_or_replace lib i flags fd k).1 gone refused),
                ),
              )
            ]

    module _ (expected : ℕ) where
      -- What xdp_link_detach leaves. With 0: nothing in the mode of the flags, where there was nothing
      -- or what was expected, if that was given, and the opposite of a given mode as it was; or, for
      -- flags without a mode, perhaps the kernel as it was. With an error the kernel is as it was, and
      -- 1 means that there is another program than expected, in this mode or, where this has none, in
      -- some other.
      abbrev pub IsDetached : ℕ × K → Type ℓ
      IsDetached r =
          ((r.0 ≡ exit_ok)
            × (((attached i flags r.1 ≡ none)
                  × (((any_flag flags modes ≡ true)
                        → attached i (opposite flags) r.1 ≡ attached i (opposite flags) k)
                      × ((expected ≢ 0)
                          → (attached i flags k ≡ none) ⊎ (attached i flags k ≡ some expected))))
                ⊎ ((any_flag flags modes ≡ false) × (r.1 ≡ k))))
          ⊎ (((r.0 ≡ exit_fail_xdp) × (r.1 ≡ k))
              ⊎ ((r.0 ≡ exit_fail)
                  × ((r.1 ≡ k)
                      × ((expected ≢ 0)
                          × ((id : ℕ) × ((id ≢ expected)
                                × ((attached i flags k ≡ some id)
                                    ⊎ ((attached i flags k ≡ none)
                                        × ((mode : ℕ) × (attached i mode k ≡ some id))))))))))

      abbrev got : ℤ × ℕ
      got = lib.get_link_xdp_id i flags k

      abbrev unset : ℤ × K
      unset = lib.set_link_xdp_fd i no_fd flags k

      abbrev mismatch : Bool
      mismatch = not (expected == 0) && not (got.1 == expected)

      got-eq : (id : ℕ) → is_pos got.0 0 ≡ true → got.1 ≡ id → got ≡ (pos 0, id)
      got-eq id h e = ap₂ (λ (a : ℤ) (b : ℕ). (a, b)) ((is_pos_iff got.0 0).0 h) e

      removes :
          is_pos got.0 0 ≡ true
          → (got.1 == 0) ≡ false
          → mismatch ≡ false
          → IsDetached (xdp_link_detach lib i flags expected k)
      unfolding xdp_link_detach
      removes h z m =
          let seen = link.get-some i flags got.1 k (got-eq got.1 h refl) (ground arith) in
          let matches : expected ≢ 0 → got.1 ≡ expected = (λ given. ground arith) in
          rw h (
            rw z (
              rw m (elim (link.set-cases i no_fd flags k) [
                | inl (ok, gone) ↦ inl (
                  ap (λ (e : ℤ). if is_negative e then exit_fail_xdp else exit_ok) ok,
                  inl (
                    gone ∙ link.program-none,
                    (
                      λ given. link.set-opposite i no_fd flags k given,
                      λ given. elim seen [
                        | inl there ↦ inr (there ∙ ap (λ (n : ℕ). some n) (matches given))
                        | inr (absent, elsewhere) ↦ inl absent
                      ],
                    ),
                  ),
                )
                | inr (failed, same) ↦
                    inr (inl (ap (λ (b : Bool). if b then exit_fail_xdp else exit_ok) failed, same))
              ])))

      -- For a libbpf that does what it documents: xdp_link_detach returns 0 with nothing attached in the
      -- mode of the flags, and then an expected program was the one there, if any was, and a program in
      -- the opposite of a given mode is still attached; or, for flags without a mode, 0 with the kernel
      -- as it was; or 30 or 1 with the kernel as it was, and 1 only where there is another program than
      -- the one expected, in the mode of the flags or, where this has none, in another.
      pub xdp_link_detach-IsDetached : IsDetached (xdp_link_detach lib i flags expected k)
      unfolding xdp_link_detach
      xdp_link_detach-IsDetached = elim (Bool-cases (is_pos got.0 0)) [
        | inr h ↦ rw h (inr (inl (refl, refl)))
        | inl h ↦ elim (Bool-cases (got.1 == 0)) [
          | inl z ↦ rw h (
              rw z (
                inl (
                  refl,
                  elim (link.get-none i flags k (got-eq 0 h (ground arith))) [
                    | inl absent ↦ inl (absent, (λ given. refl, λ given. inl absent))
                    | inr unknown ↦ inr (unknown, refl)
                  ],
                )))
          | inr z ↦ elim (Bool-cases mismatch) [
            | inl m ↦
                let there = link.get-some i flags got.1 k (got-eq got.1 h refl) (ground arith) in
                rw h (
                  rw z (
                    rw m
                      (inr (inr (refl, (refl, (ground arith, (got.1, (ground arith, there)))))))))
            | inr m ↦ removes h z m
          ]
        ]
      ]
