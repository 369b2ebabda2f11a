-- ===== src/StatsReader.antt =====
-- loader/xdp_stats.c: reads the statistics map again and again, and prints the differences.
use syncookie_xdp.Prelude.{
  ℕ, zero, suc, ◌+◌, ◌-◌, ◌*◌, ◌/◌, ◌%◌, ◌^◌, Bool, true, false, List, [], ◌∷◌, Option, none, some,
  ◌==◌, if◌then◌else◌,
}
use syncookie_xdp.Prelude.Int.{ℤ}
use syncookie_xdp.Attach.{is_negative, exit_fail}
use syncookie_xdp.Loader.{Run, returns, exits}
use syncookie_xdp.Stats.{Datarec, action_max}

abbrev pub nanosec_per_sec : ℕ
nanosec_per_sec = 1000000000

-- struct record and struct stats_record.
pub record Record : Type 0 where
  pub timestamp : ℕ
  pub total : Datarec

abbrev pub StatsRecord : Type 0
StatsRecord = ℕ → Record

-- gettime, of what clock_gettime returns and of the two fields that it fills in; where that is
-- negative, the process ends.
unfoldable pub gettime : ℤ → ℕ → ℕ → Run ℕ
gettime res tv_sec tv_nsec =
    if is_negative res
    then exits exit_fail
    else returns ((tv_sec * nanosec_per_sec + tv_nsec) % 2 ^ 64)

-- calc_period in nanoseconds: the source divides by NANOSEC_PER_SEC in a double, and a period
-- of 0 is 0 there too.
unfoldable pub calc_period : Record → Record → ℕ
calc_period r p = (r.timestamp + 2 ^ 64 - p.timestamp) % 2 ^ 64

-- The loop of map_get_value_percpu_array over the values of the CPUs.
unfoldable pub sum_values : List Datarec → Datarec → Datarec
sum_values [] sum = sum
sum_values (v ∷ vs) sum = sum_values vs (record {
  rx_packets = (sum.rx_packets + v.rx_packets) % 2 ^ 64;
  rx_bytes = (sum.rx_bytes + v.rx_bytes) % 2 ^ 64;
})

abbrev pub zero_datarec : Datarec
zero_datarec = record { rx_packets = 0; rx_bytes = 0 }

-- The two readers. `found` is what bpf_map_lookup_elem copies, `none` where it fails; `value` is
-- what `*value` holds before the call.
unfoldable pub map_get_value_array : Option Datarec → Datarec → Datarec
map_get_value_array none value = value
map_get_value_array (some found) value = found

unfoldable pub map_get_value_percpu_array : Option (List Datarec) → Datarec → Datarec
unfolding sum_values
map_get_value_percpu_array none value = value
map_get_value_percpu_array (some values) value = sum_values values zero_datarec

-- BPF_MAP_TYPE_ARRAY and BPF_MAP_TYPE_PERCPU_ARRAY of headers/linux/bpf.h.
abbrev pub map_type_array : ℕ
map_type_array = 2

abbrev pub map_type_percpu_array : ℕ
map_type_percpu_array = 6

-- What the kernel answers to one key: as an array, and as an array for each CPU.
pub record Answer : Type 0 where
  pub single : Option Datarec
  pub percpu : Option (List Datarec)

-- map_collect. `garbage` is what the local `value` holds, which nothing initialises; `now` is what
-- gettime returns; a process that it ends has no more readings.
unfoldable pub map_collect : ℕ → Datarec → ℕ → Answer → Record → Bool × Record
unfolding map_get_value_array map_get_value_percpu_array
map_collect map_type garbage now answer rec =
    if map_type == map_type_array
    then (true, record { timestamp = now; total = map_get_value_array answer.single garbage })
    else if map_type == map_type_percpu_array
    then (
      true,
      record { timestamp = now; total = map_get_value_percpu_array answer.percpu garbage },
    )
    else (false, record rec { timestamp = now })

-- stats_collect: the loop from `key` on, with `left` rounds to go. The result of map_collect is
-- not looked at.
unfoldable pub collect_loop :
    ℕ → (ℕ → Datarec) → (ℕ → ℕ) → (ℕ → Answer) → ℕ → ℕ → StatsRecord → StatsRecord
unfolding map_collect
collect_loop map_type garbage now answer zero key stats = stats
collect_loop map_type garbage now answer (suc left) key stats =
    let collected = map_collect map_type (garbage key) (now key) (answer key) (stats key) in
    collect_loop map_type garbage now answer left (key + 1)
      (λ k. if k == key then collected.1 else stats k)

unfoldable pub stats_collect :
    ℕ → (ℕ → Datarec) → (ℕ → ℕ) → (ℕ → Answer) → StatsRecord → StatsRecord
unfolding collect_loop
stats_collect map_type garbage now answer stats =
    collect_loop map_type garbage now answer action_max 0 stats

-- A line of stats_print: the totals, and the differences (in packets, and in bits: `bytes * 8` is
-- a __u64) whose quotients by the period it prints.
pub record Line : Type 0 where
  pub action : ℕ
  pub packets : ℕ
  pub packets_more : ℕ
  pub kbytes : ℕ
  pub bits_more : ℕ
  pub period : ℕ

abbrev pub line : ℕ → Record → Record → ℕ → Line
line i rec prev period = record {
  action = i;
  packets = rec.total.rx_packets;
  packets_more = (rec.total.rx_packets + 2 ^ 64 - prev.total.rx_packets) % 2 ^ 64;
  kbytes = rec.total.rx_bytes / 1000;
  bits_more = (rec.total.rx_bytes + 2 ^ 64 - prev.total.rx_bytes) % 2 ^ 64 * 8 % 2 ^ 64;
  period = period;
}

-- stats_print from action `i` on: it returns at the first period that is 0.
unfoldable pub print_loop : ℕ → ℕ → StatsRecord → StatsRecord → List Line
unfolding calc_period
print_loop zero i rec prev = []
print_loop (suc left) i rec prev =
    let period = calc_period (rec i) (prev i) in
    let rest = print_loop left (i + 1) rec prev in
    if period == 0 then [] else line i (rec i) (prev i) period ∷ rest

unfoldable pub stats_print : StatsRecord → StatsRecord → List Line
unfolding print_loop
stats_print rec prev = print_loop action_max 0 rec prev
