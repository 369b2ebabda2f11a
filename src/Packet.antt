-- ===== src/Packet.antt =====
-- The packet that an XDP program sees, as bytes at offsets from `ctx->data`, and the loads and
-- stores of the host at those offsets. headers/bpf_endian.h knows two byte orders.
use syncookie_xdp.Prelude.{
  ℕ, zero, suc, ◌+◌, ◌-◌, ◌*◌, ◌/◌, ◌%◌, ◌^◌, ◌<◌, List, [], ◌∷◌, ◌==◌, if◌then◌else◌,
}

pub data Endian : Type 0 where
  little big : Endian

-- A byte for each offset; the offsets from `len` on are not part of the packet.
abbrev pub Mem : Type 0
Mem = ℕ → ℕ

abbrev pub IsBytes : Mem → Type 0
IsBytes m = (a : ℕ) → m a < 256

abbrev pub put8 : Mem → ℕ → ℕ → Mem
put8 m p v a = if a == p then v % 256 else m a

abbrev pub get16 : Endian → Mem → ℕ → ℕ
get16 little m p = m p + 256 * m (p + 1)
get16 big m p = 256 * m p + m (p + 1)

abbrev pub put16 : Endian → Mem → ℕ → ℕ → Mem
put16 little m p v = put8 (put8 m p v) (p + 1) (v / 256)
put16 big m p v = put8 (put8 m p (v / 256)) (p + 1) v

abbrev pub get32 : Endian → Mem → ℕ → ℕ
get32 little m p = get16 little m p + 65536 * get16 little m (p + 2)
get32 big m p = 65536 * get16 big m p + get16 big m (p + 2)

abbrev pub put32 : Endian → Mem → ℕ → ℕ → Mem
put32 little m p v = put16 little (put16 little m p v) (p + 2) (v / 65536)
put32 big m p v = put16 big (put16 big m p (v / 65536)) (p + 2) v

-- `n` bytes from `p` on, as `memcpy` moves them.
abbrev pub get_bytes : Mem → ℕ → ℕ → List ℕ
get_bytes m p zero = []
get_bytes m p (suc n) = m p ∷ get_bytes m (p + 1) n

abbrev pub put_bytes : Mem → ℕ → List ℕ → Mem
put_bytes m p [] = m
put_bytes m p (b ∷ bs) = put_bytes (put8 m p b) (p + 1) bs

-- A one-bit field at place `i` of a byte. A compiler for a little-endian host places bit-fields
-- from the lowest bit of the byte on, one for a big-endian host from the highest.
abbrev pub bit_place : Endian → ℕ → ℕ
bit_place little i = 2 ^ i
bit_place big i = 2 ^ (7 - i)

abbrev pub get_bit : Endian → ℕ → ℕ → ℕ
get_bit e b i = b / bit_place e i % 2

abbrev pub put_bit : Endian → ℕ → ℕ → ℕ → ℕ
put_bit e b i v =
    b / (2 * bit_place e i) * (2 * bit_place e i) + v * bit_place e i + b % bit_place e i

-- The second of two four-bit fields of a byte.
abbrev pub second_nibble : Endian → ℕ → ℕ
second_nibble little b = b / 16 % 16
second_nibble big b = b % 16
