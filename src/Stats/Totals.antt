-- ===== src/Stats/Totals.antt =====
-- The records of all CPUs together: what user space sees of the map, and how one packet changes it.
use syncookie_xdp.Prelude.{
  ℕ, zero, suc, ◌+◌, ◌%◌, ◌^◌, ◌≤◌, ◌<◌, ◌≡◌, ◌≢◌, ◌⊎◌, inl, inr, refl, List, [], ◌∷◌, Option, none,
  some, arith, ◌==◌, Bool-cases, ap,
}
use syncookie_xdp.Stats.{Datarec, StatsMap, store}
use syncookie_xdp.StatsReader.{sum_values, zero_datarec}

abbrev pub held : Option Datarec → Datarec
held none = zero_datarec
held (some rec) = rec

-- The records of one key, of the CPUs from `c` on.
abbrev pub values : StatsMap → ℕ → ℕ → ℕ → List Datarec
values m key c zero = []
values m key c (suc left) = held (m c key) ∷ values m key (c + 1) left

abbrev pub packets : List Datarec → ℕ
packets [] = 0
packets (v ∷ vs) = v.rx_packets + packets vs

abbrev pub bytes : List Datarec → ℕ
bytes [] = 0
bytes (v ∷ vs) = v.rx_bytes + bytes vs

-- The reader's loop computes the two sums, modulo 2 ^ 64.
pub sum_values-packets :
    (vs : List Datarec) (sum : Datarec)
    → sum.rx_packets < 2 ^ 64
    → (sum_values vs sum).rx_packets ≡ (sum.rx_packets + packets vs) % 2 ^ 64
unfolding sum_values
sum_values-packets [] sum h = omega arith
sum_values-packets (v ∷ vs) sum h = omega (
  arith,
  sum_values-packets vs
      (record {
        rx_packets = (sum.rx_packets + v.rx_packets) % 2 ^ 64;
        rx_bytes = (sum.rx_bytes + v.rx_bytes) % 2 ^ 64;
      })
      (omega arith),
)

pub sum_values-bytes :
    (vs : List Datarec) (sum : Datarec)
    → sum.rx_bytes < 2 ^ 64
    → (sum_values vs sum).rx_bytes ≡ (sum.rx_bytes + bytes vs) % 2 ^ 64
unfolding sum_values
sum_values-bytes [] sum h = omega arith
sum_values-bytes (v ∷ vs) sum h = omega (
  arith,
  sum_values-bytes vs
      (record {
        rx_packets = (sum.rx_packets + v.rx_packets) % 2 ^ 64;
        rx_bytes = (sum.rx_bytes + v.rx_bytes) % 2 ^ 64;
      })
      (omega arith),
)

module _ (m : StatsMap) (cpu key : ℕ) (rec : Datarec) where
  -- A write for another CPU or another key is not seen.
  pub values-store_ne :
      (k c left : ℕ)
      → (k ≢ key) ⊎ ((cpu < c) ⊎ (c + left ≤ cpu))
      → values (store m cpu key rec) k c left ≡ values m k c left
  values-store_ne k c zero h = refl
  values-store_ne k c (suc left) h = ground (arith, values-store_ne k (c + 1) left (omega arith))

  -- A write among the CPUs exchanges one summand for another.
  pub packets-store :
      (c left : ℕ)
      → c ≤ cpu
      → cpu < c + left
      → packets (values (store m cpu key rec) key c left) + (held (m cpu key)).rx_packets
        ≡ packets (values m key c left) + rec.rx_packets
  packets-store c zero lo hi = absurd (omega arith)
  packets-store c (suc left) lo hi = elim (Bool-cases (c == cpu)) [
    | inl here ↦
        ground (arith, ap packets (values-store_ne key (c + 1) left (inr (inl (ground arith)))))
    | inr before ↦ ground (arith, packets-store (c + 1) left (ground arith) (omega arith))
  ]

  pub bytes-store :
      (c left : ℕ)
      → c ≤ cpu
      → cpu < c + left
      → bytes (values (store m cpu key rec) key c left) + (held (m cpu key)).rx_bytes
        ≡ bytes (values m key c left) + rec.rx_bytes
  bytes-store c zero lo hi = absurd (omega arith)
  bytes-store c (suc left) lo hi = elim (Bool-cases (c == cpu)) [
    | inl here ↦
        ground (arith, ap bytes (values-store_ne key (c + 1) left (inr (inl (ground arith)))))
    | inr before ↦ ground (arith, bytes-store (c + 1) left (ground arith) (omega arith))
  ]
