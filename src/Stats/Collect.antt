-- ===== src/Stats/Collect.antt =====
-- What loader/xdp_stats.c reads of the map: the loop of stats_collect.
use syncookie_xdp.Prelude.{
  ℕ, zero, suc, ◌+◌, ◌%◌, ◌^◌, ◌≤◌, ◌<◌, ◌≡◌, refl, none, some, arith, ◌==◌, if◌then◌else◌,
  Bool-cases, ap₂, subst, ◌∙◌, inl, inr, ◌⊎◌,
}
use syncookie_xdp.Stats.{Datarec, action_max, StatsMap}
use syncookie_xdp.StatsReader.{
  Record, StatsRecord, Answer, map_get_value_percpu_array, map_collect, map_type_array,
  map_get_value_array, map_type_percpu_array, collect_loop, stats_collect, zero_datarec,
}
use syncookie_xdp.Stats.Totals.{values, packets, bytes, sum_values-packets, sum_values-bytes}

-- What the kernel answers user space about an array for each of `n` CPUs.
abbrev pub percpu_answer : ℕ → StatsMap → ℕ → Answer
percpu_answer n m k = record { single = none; percpu = some (values m k 0 n) }

module _ (map_type : ℕ) (garbage : ℕ → Datarec) (now : ℕ → ℕ) (answer : ℕ → Answer) where
  collect_loop-before :
      (left key : ℕ) (stats : StatsRecord) (k : ℕ)
      → k < key
      → collect_loop map_type garbage now answer left key stats k ≡ stats k
  unfolding collect_loop
  collect_loop-before zero key stats k h = refl
  collect_loop-before (suc left) key stats k h =
      let collected = (map_collect map_type (garbage key) (now key) (answer key) (stats key)).1 in
      collect_loop-before left (key + 1) (λ j. if j == key then collected else stats j) k
        (omega arith)
      ∙ ground arith

  -- Each round writes the record of its key, from what the kernel answers for that key.
  collect_loop-at :
      (left key : ℕ) (stats : StatsRecord) (k : ℕ)
      → key ≤ k
      → k < key + left
      → collect_loop map_type garbage now answer left key stats k
        ≡ (map_collect map_type (garbage k) (now k) (answer k) (stats k)).1
  unfolding collect_loop
  collect_loop-at zero key stats k lo hi = absurd (omega arith)
  collect_loop-at (suc left) key stats k lo hi =
      let collected = (map_collect map_type (garbage key) (now key) (answer key) (stats key)).1 in
      let next : StatsRecord = (λ j. if j == key then collected else stats j) in
      elim (Bool-cases (k == key)) [
        | inl here ↦
            subst
              (λ (j : ℕ).
                collect_loop map_type garbage now answer left (key + 1) next j
                ≡ (map_collect map_type (garbage j) (now j) (answer j) (stats j)).1)
              (ground arith)
              (collect_loop-before left (key + 1) next key (omega arith) ∙ ground arith)
        | inr there ↦
            collect_loop-at left (key + 1) next k (ground arith) (omega arith) ∙ ground arith
      ]

abbrev pub record_of : ℕ → ℕ → ℕ → Record
record_of time p b = record { timestamp = time; total = record { rx_packets = p; rx_bytes = b } }

-- A reading of the map.
abbrev pub reading : ℕ → (ℕ → ℕ) → StatsMap → ℕ → Record
reading n now m k =
    record_of (now k) (packets (values m k 0 n) % 2 ^ 64) (bytes (values m k 0 n) % 2 ^ 64)

-- From an array for each CPU, stats_collect fills in the record of every action with the time and
-- with the sums over the CPUs modulo 2 ^ 64, whatever the locals and the old records hold.
pub stats_collect-reading :
    (n : ℕ) (garbage : ℕ → Datarec) (now : ℕ → ℕ) (m : StatsMap) (stats : StatsRecord) (k : ℕ)
    → k < action_max
    → stats_collect map_type_percpu_array garbage now (percpu_answer n m) stats k
      ≡ reading n now m k
unfolding stats_collect map_collect map_get_value_percpu_array
stats_collect-reading n garbage now m stats k hk =
    collect_loop-at map_type_percpu_array garbage now (percpu_answer n m) 5 0 stats k (omega arith)
      hk
    ∙ ap₂ (record_of (now k)) (sum_values-packets (values m k 0 n) zero_datarec (omega arith))
        (sum_values-bytes (values m k 0 n) zero_datarec (omega arith))
    ∙ ap₂ (record_of (now k)) (omega arith) (omega arith)

-- Where the lookup of a key fails, for both kinds of map, stats_collect stores as the total
-- whatever the uninitialised local `value` held, with a new time.
pub stats_collect-garbage :
    (map_type : ℕ)
    → (map_type ≡ map_type_array) ⊎ (map_type ≡ map_type_percpu_array)
    → (garbage : ℕ → Datarec) (now : ℕ → ℕ) (answer : ℕ → Answer) (stats : StatsRecord) (k : ℕ)
    → k < action_max
    → answer k ≡ record { single = none; percpu = none }
    → stats_collect map_type garbage now answer stats k
      ≡ record { timestamp = now k; total = garbage k }
unfolding stats_collect map_collect map_get_value_percpu_array map_get_value_array
stats_collect-garbage map_type kind garbage now answer stats k hk failed =
    collect_loop-at map_type garbage now answer 5 0 stats k (omega arith) hk ∙ ground arith
