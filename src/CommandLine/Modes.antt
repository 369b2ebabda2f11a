-- ===== src/CommandLine/Modes.antt =====
-- The flags that a command line leaves: of the options for a mode, the last one counts.
use syncookie_xdp.Prelude.{
  ℕ, ◌+◌, ◌*◌, ◌/◌, ◌%◌, ◌^◌, ◌<◌, ◌≡◌, ◌⊎◌, inl, inr, refl, Bool, false, ◌||◌, Option, none, some,
  List, [], ◌∷◌, ◌==◌, if◌then◌else◌, ◌∙◌, sym, subst, arith,
}
use syncookie_xdp.Attach.{clear_modes, skb_mode, drv_mode, hw_mode}
use syncookie_xdp.Attach.Flags.{clear_modes-eq, or_skb, or_drv, or_hw}
use syncookie_xdp.Bits.{bit_and-mask, bit_and_digit}
use syncookie_xdp.CommandLine.{
  Opt, Settings, goes_on, set_mode, set_force, set_device, set_redirect_device, handle, parse_loop,
  Step-cases,
}

-- What an option makes of the flags.
abbrev new_flags : ℕ → ℕ → ℕ
new_flags opt flags =
    if opt == b'A'
    then clear_modes flags
    else if opt == b'S'
    then set_mode skb_mode flags
    else if opt == b'N'
    then set_mode drv_mode flags
    else if opt == 3
    then set_mode hw_mode flags
    else if opt == b'F'
    then set_force flags
    else flags

set_force-eq : (flags : ℕ) → flags < 2 ^ 32 → set_force flags ≡ flags / 2 * 2
unfolding set_force
set_force-eq flags h =
    omega (arith, bit_and_digit flags 0xfffffffe, bit_and-mask 31 (flags / 2) (omega arith))

set_mode-eq :
    (flags mode : ℕ)
    → flags < 2 ^ 32
    → (mode ≡ skb_mode) ⊎ ((mode ≡ drv_mode) ⊎ (mode ≡ hw_mode))
    → set_mode mode flags ≡ flags / 16 * 16 + flags % 2 + mode
unfolding set_mode
set_mode-eq flags mode h (inl skb) = rw skb (omega (arith, or_skb flags h, clear_modes-eq flags h))
set_mode-eq flags mode h (inr (inl drv)) =
    rw drv (omega (arith, or_drv flags h, clear_modes-eq flags h))
set_mode-eq flags mode h (inr (inr hw)) =
    rw hw (omega (arith, or_hw flags h, clear_modes-eq flags h))

-- The mode that an option asks for, where 0 leaves the choice to the kernel.
abbrev pub mode_of : ℕ → Option ℕ
mode_of opt =
    if opt == b'A'
    then some 0
    else if opt == b'S'
    then some skb_mode
    else if opt == b'N'
    then some drv_mode
    else if opt == 3
    then some hw_mode
    else none

abbrev pub or_else : Option ℕ → ℕ → ℕ
or_else none old = old
or_else (some new) old = new

-- The last option for a mode, and whether there is one that allows to replace a program.
abbrev pub last_mode : List Opt → Option ℕ
last_mode [] = none
last_mode (o ∷ os) =
    let later = last_mode os in elim later [ some mode ↦ some mode | none ↦ mode_of o.opt ]

abbrev pub has_force : List Opt → Bool
has_force [] = false
has_force (o ∷ os) = (o.opt == b'F') || has_force os

-- Flags by their parts: the modes and XDP_FLAGS_UPDATE_IF_NOEXIST are new, the others are kept.
pub record IsNewFlags (mode : Option ℕ) (force : Bool) (old new : ℕ) : Type 0 where
  pub word : new < 2 ^ 32
  pub others : new / 16 ≡ old / 16
  pub mode_bits : new / 2 % 8 * 2 ≡ or_else mode (old / 2 % 8 * 2)
  pub noexist_bit : new % 2 ≡ (if force then 0 else old % 2)

IsNewFlags-trans :
    (m m' : Option ℕ) (f f' : Bool) {a b c : ℕ}
    → IsNewFlags m f a b
    → IsNewFlags m' f' b c
    → IsNewFlags (elim m' [ some mode ↦ some mode | none ↦ m ]) (f || f') a c
IsNewFlags-trans m m' f f' x y = record {
  word = y.word;
  others = y.others ∙ x.others;
  mode_bits = let p = x.mode_bits in let q = y.mode_bits in ground arith;
  noexist_bit = let p = x.noexist_bit in let q = y.noexist_bit in ground arith;
}

new_flags-IsNewFlags :
    (opt flags : ℕ)
    → flags < 2 ^ 32
    → IsNewFlags (mode_of opt) (opt == b'F') flags (new_flags opt flags)
new_flags-IsNewFlags opt flags h =
    let a = clear_modes-eq flags h in
    let s = set_mode-eq flags skb_mode h (inl refl) in
    let n = set_mode-eq flags drv_mode h (inr (inl refl)) in
    let w = set_mode-eq flags hw_mode h (inr (inr refl)) in
    let f = set_force-eq flags h in
    record {
      word = ground arith;
      others = ground arith;
      mode_bits = ground arith;
      noexist_bit = ground arith;
    }

module _ (if_nametoindex : List ℕ → ℕ) where
  handle-new_flags :
      (o : Opt) (p p' : Settings)
      → handle if_nametoindex o p ≡ goes_on p'
      → p'.cfg.xdp_flags ≡ new_flags o.opt p.cfg.xdp_flags
  unfolding handle set_device set_redirect_device
  handle-new_flags o p p' h = ground arith

  -- Where the command line is accepted, the flags have the mode of the last option for one, and
  -- XDP_FLAGS_UPDATE_IF_NOEXIST is off if --force is among the options; all else in them, and each of
  -- these without such an option, is as it was.
  pub parse_loop-IsNewFlags :
      (os : List Opt) (p p' : Settings)
      → p.cfg.xdp_flags < 2 ^ 32
      → parse_loop if_nametoindex os p ≡ goes_on p'
      → IsNewFlags (last_mode os) (has_force os) p.cfg.xdp_flags p'.cfg.xdp_flags
  unfolding parse_loop
  parse_loop-IsNewFlags [] p p' h e = record {
    word = ground arith;
    others = ground arith;
    mode_bits = ground arith;
    noexist_bit = ground arith;
  }
  parse_loop-IsNewFlags (o ∷ os) p p' h e = elim (Step-cases (handle if_nametoindex o p)) [
    | inr (full_help, stopped) ↦ absurd (ground arith)
    | inl (q, went) ↦
        let rest : parse_loop if_nametoindex os q ≡ goes_on p' = rw (went, parse_loop) at e in
        let flags = handle-new_flags o p q went in
        let first =
          subst (IsNewFlags (mode_of o.opt) (o.opt == b'F') p.cfg.xdp_flags) (sym flags)
            (new_flags-IsNewFlags o.opt p.cfg.xdp_flags h) in
        IsNewFlags-trans (mode_of o.opt) (last_mode os) (o.opt == b'F') (has_force os) first
          (parse_loop-IsNewFlags os q p' first.word rest)
  ]
