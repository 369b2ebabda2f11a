-- ===== src/Attach/Flags.antt =====
-- The flag arithmetic of xdp_link_attach.
use Prim.Native.Nat.{bit_and, bit_or}
use syncookie_xdp.Prelude.{
  ℕ, ◌+◌, ◌*◌, ◌/◌, ◌%◌, ◌^◌, ◌<◌, ◌≡◌, arith, ◌==◌, ◌∙◌, inl, inr, Bool-cases, if◌then◌else◌,
}
use syncookie_xdp.Bits.{bit_and-mask, bit_and-one, bit_and_digit, bit_or_digit, bit_or-zero_right}
use syncookie_xdp.Attach.{
  update_if_noexist, skb_mode, drv_mode, hw_mode, any_flag, clear_modes, other_mode,
}

module _ (flags : ℕ) (word : flags < 2 ^ 32) where
  pub noexist-eq : any_flag flags update_if_noexist ≡ (flags % 2 == 1)
  noexist-eq = let e = bit_and-one 32 flags word in ground arith

  skb_bit : bit_and flags skb_mode ≡ flags / 2 % 2 * 2
  skb_bit = omega (arith, bit_and_digit flags 2, bit_and-one 31 (flags / 2) (omega arith))

  pub skb-eq : any_flag flags skb_mode ≡ (flags / 2 % 2 == 1)
  skb-eq = let e = skb_bit in ground arith

  -- Only the three bits of the modes are cleared.
  pub clear_modes-eq : clear_modes flags ≡ flags / 16 * 16 + flags % 2
  unfolding clear_modes
  clear_modes-eq = omega (
    arith,
    bit_and_digit flags 0xfffffff1,
    bit_and_digit (flags / 2) 0x7ffffff8,
    bit_and_digit (flags / 2 / 2) 0x3ffffffc,
    bit_and_digit (flags / 2 / 2 / 2) 0x1ffffffe,
    bit_and-mask 28 (flags / 2 / 2 / 2 / 2) (omega arith),
  )

  cleared_lt : clear_modes flags < 2 ^ 32
  cleared_lt = omega (arith, clear_modes-eq)

  pub or_skb : bit_or (clear_modes flags) skb_mode ≡ clear_modes flags + skb_mode
  or_skb =
      let c = clear_modes-eq in
      omega (
        arith,
        cleared_lt,
        bit_or_digit (clear_modes flags) 2,
        bit_or_digit (clear_modes flags / 2) 1,
        bit_or-zero_right 30 (clear_modes flags / 2 / 2) (omega (arith, cleared_lt)),
      )

  pub or_drv : bit_or (clear_modes flags) drv_mode ≡ clear_modes flags + drv_mode
  or_drv =
      let c = clear_modes-eq in
      omega (
        arith,
        cleared_lt,
        bit_or_digit (clear_modes flags) 4,
        bit_or_digit (clear_modes flags / 2) 2,
        bit_or_digit (clear_modes flags / 2 / 2) 1,
        bit_or-zero_right 29 (clear_modes flags / 2 / 2 / 2) (omega (arith, cleared_lt)),
      )

  pub or_hw : bit_or (clear_modes flags) hw_mode ≡ clear_modes flags + hw_mode
  or_hw =
      let c = clear_modes-eq in
      omega (
        arith,
        cleared_lt,
        bit_or_digit (clear_modes flags) 8,
        bit_or_digit (clear_modes flags / 2) 4,
        bit_or_digit (clear_modes flags / 2 / 2) 2,
        bit_or_digit (clear_modes flags / 2 / 2 / 2) 1,
        bit_or-zero_right 28 (clear_modes flags / 2 / 2 / 2 / 2) (omega (arith, cleared_lt)),
      )

  -- For flags in 32 bits, the retry has the flags given but for the three of the modes, of which it
  -- has one: the driver's where the generic mode was given, else the generic.
  pub other_mode-eq :
      other_mode flags
      ≡ flags / 16 * 16 + flags % 2 + (if flags / 2 % 2 == 1 then drv_mode else skb_mode)
  unfolding other_mode
  other_mode-eq = rw skb-eq (elim (Bool-cases (flags / 2 % 2 == 1)) [
    | inl skb ↦ rw skb (or_drv ∙ omega (arith, clear_modes-eq))
    | inr other ↦ rw other (or_skb ∙ omega (arith, clear_modes-eq))
  ])
