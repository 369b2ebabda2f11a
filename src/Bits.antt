-- ===== src/Bits.antt =====
-- Laws of the C operators `|`, `^` and `&` on unsigned words of `w` bits: the code that builds and
-- compares cookies relies on them, and that on the flags of a link. The native operations stand for a recursion on binary digits.
mod Digits
pub use Digits.{bit_and_digit, bit_or_digit, bit_xor_digit}
use Prim.Native.Nat.{min, bit_and, bit_or, bit_xor}
use native.Mathlib.Nat.{pow-suc}
use syncookie_xdp.Prelude.{ℕ, zero, suc, ◌+◌, ◌-◌, ◌*◌, ◌/◌, ◌%◌, ◌^◌, ◌<◌, ◌≡◌, refl, ap, arith}

-- Half of a word has one bit less.
half-lt : (w a : ℕ) → a < 2 ^ suc w → a / 2 < 2 ^ w
half-lt w a h = omega (arith, pow-suc 2 w)

pub bit_or-lt : (w a b : ℕ) → a < 2 ^ w → b < 2 ^ w → bit_or a b < 2 ^ w
bit_or-lt zero zero zero ha hb = omega arith
bit_or-lt zero zero (suc b) ha hb = absurd (omega arith)
bit_or-lt zero (suc a) b ha hb = absurd (omega arith)
bit_or-lt (suc w) a b ha hb = omega (
  arith,
  bit_or_digit a b,
  pow-suc 2 w,
  bit_or-lt w (a / 2) (b / 2) (half-lt w a ha) (half-lt w b hb),
)

pub bit_xor-lt : (w a b : ℕ) → a < 2 ^ w → b < 2 ^ w → bit_xor a b < 2 ^ w
bit_xor-lt zero zero zero ha hb = omega arith
bit_xor-lt zero zero (suc b) ha hb = absurd (omega arith)
bit_xor-lt zero (suc a) b ha hb = absurd (omega arith)
bit_xor-lt (suc w) a b ha hb = omega (
  arith,
  bit_xor_digit a b,
  pow-suc 2 w,
  bit_xor-lt w (a / 2) (b / 2) (half-lt w a ha) (half-lt w b hb),
)

bit_xor-half : (a b : ℕ) → bit_xor a b / 2 ≡ bit_xor (a / 2) (b / 2)
bit_xor-half a b = omega (arith, bit_xor_digit a b)

-- A second `^` with the same word undoes the first.
pub bit_xor-cancel : (w a b : ℕ) → a < 2 ^ w → b < 2 ^ w → bit_xor (bit_xor a b) b ≡ a
bit_xor-cancel zero zero zero ha hb = refl
bit_xor-cancel zero zero (suc b) ha hb = absurd (omega arith)
bit_xor-cancel zero (suc a) b ha hb = absurd (omega arith)
bit_xor-cancel (suc w) a b ha hb = omega (
  arith,
  bit_xor_digit (bit_xor a b) b,
  bit_xor_digit a b,
  ap (λ (t : ℕ). bit_xor t (b / 2)) (bit_xor-half a b),
  bit_xor-cancel w (a / 2) (b / 2) (half-lt w a ha) (half-lt w b hb),
)

-- The order of two words that are mixed in does not matter.
pub bit_xor_right_comm :
    (w a b c : ℕ)
    → a < 2 ^ w
    → b < 2 ^ w
    → c < 2 ^ w
    → bit_xor (bit_xor a b) c ≡ bit_xor (bit_xor a c) b
bit_xor_right_comm zero zero zero zero ha hb hc = refl
bit_xor_right_comm zero zero zero (suc c) ha hb hc = absurd (omega arith)
bit_xor_right_comm zero zero (suc b) c ha hb hc = absurd (omega arith)
bit_xor_right_comm zero (suc a) b c ha hb hc = absurd (omega arith)
bit_xor_right_comm (suc w) a b c ha hb hc = omega (
  arith,
  bit_xor_digit (bit_xor a b) c,
  bit_xor_digit (bit_xor a c) b,
  bit_xor_digit a b,
  bit_xor_digit a c,
  ap (λ (t : ℕ). bit_xor t (c / 2)) (bit_xor-half a b),
  ap (λ (t : ℕ). bit_xor t (b / 2)) (bit_xor-half a c),
  bit_xor_right_comm w (a / 2) (b / 2) (c / 2) (half-lt w a ha) (half-lt w b hb) (half-lt w c hc),
)

pub bit_or-zero_right : (w a : ℕ) → a < 2 ^ w → bit_or a 0 ≡ a
bit_or-zero_right zero zero ha = refl
bit_or-zero_right zero (suc a) ha = absurd (omega arith)
bit_or-zero_right (suc w) a ha =
    omega (arith, bit_or_digit a 0, bit_or-zero_right w (a / 2) (half-lt w a ha))

halved : (hi k : ℕ) → hi * 2 ^ suc k / 2 ≡ hi * 2 ^ k
halved hi k = omega (arith, ap (λ (t : ℕ). hi * t) (pow-suc 2 k))

-- `hi << k | lo` is a sum where `lo` has `k` bits.
pub bit_or-shifted :
    (w k hi lo : ℕ) → hi < 2 ^ w → lo < 2 ^ k → bit_or (hi * 2 ^ k) lo ≡ hi * 2 ^ k + lo
bit_or-shifted w zero hi zero hh hl =
    let one : hi * 2 ^ 0 ≡ hi = omega arith in rw one (omega (arith, bit_or-zero_right w hi hh))
bit_or-shifted w zero hi (suc lo) hh hl = absurd (omega arith)
bit_or-shifted w (suc k) hi lo hh hl = omega (
  arith,
  bit_or_digit (hi * 2 ^ suc k) lo,
  ap (λ (t : ℕ). hi * t) (pow-suc 2 k),
  ap (λ (t : ℕ). bit_or t (lo / 2)) (halved hi k),
  bit_or-shifted w k hi (lo / 2) hh (half-lt k lo hl),
)

-- A mask of all bits keeps a word.
pub bit_and-mask : (w a : ℕ) → a < 2 ^ w → bit_and a (2 ^ w - 1) ≡ a
bit_and-mask zero zero h = refl
bit_and-mask zero (suc a) h = absurd (omega arith)
bit_and-mask (suc w) a h =
    let half : (2 ^ suc w - 1) / 2 ≡ 2 ^ w - 1 = omega (arith, pow-suc 2 w) in
    omega (
      arith,
      bit_and_digit a (2 ^ suc w - 1),
      pow-suc 2 w,
      ap (λ (t : ℕ). bit_and (a / 2) t) half,
      bit_and-mask w (a / 2) (half-lt w a h),
    )

bit_and-zero : (w a : ℕ) → a < 2 ^ w → bit_and a 0 ≡ 0
bit_and-zero zero zero h = refl
bit_and-zero zero (suc a) h = absurd (omega arith)
bit_and-zero (suc w) a h = omega (arith, bit_and_digit a 0, bit_and-zero w (a / 2) (half-lt w a h))

pub bit_and-one : (w a : ℕ) → a < 2 ^ w → bit_and a 1 ≡ a % 2
bit_and-one zero zero h = refl
bit_and-one zero (suc a) h = absurd (omega arith)
bit_and-one (suc w) a h = omega (arith, bit_and_digit a 1, bit_and-zero w (a / 2) (half-lt w a h))
