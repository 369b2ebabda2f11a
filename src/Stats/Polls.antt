-- ===== src/Stats/Polls.antt =====
-- Packets between two polls of loader/xdp_stats.c: what stats_print says of two readings of the
-- map that xdp_stats_record_action writes.
use syncookie_xdp.Prelude.{
  ℕ, zero, suc, ◌+◌, ◌-◌, ◌*◌, ◌/◌, ◌%◌, ◌^◌, ◌≤◌, ◌<◌, ◌≡◌, ◌≢◌, refl, List, [], ◌∷◌, arith, ap,
  ap₂, ◌∙◌,
}
use syncookie_xdp.Stats.{Datarec, action_max, StatsMap, xdp_stats_record_action}
use syncookie_xdp.StatsReader.{
  Record, StatsRecord, Line, line, calc_period, map_type_percpu_array, stats_collect, print_loop,
  stats_print,
}
use syncookie_xdp.Stats.Totals.{values, packets, bytes}
use syncookie_xdp.Stats.Collect.{percpu_answer, reading, stats_collect-reading}
use syncookie_xdp.Stats.Counting.{
  IsComplete, Event, AllEvents, run, count, volume, step-IsComplete, step-packets, step-bytes,
}

-- What the map holds for all CPUs after a run is what it held before, and the packets of the run.
pub run-packets :
    (n : ℕ) (evs : List Event) (m : StatsMap)
    → AllEvents n evs
    → IsComplete n m
    → (k : ℕ) → k < action_max
    → packets (values (run evs m) k 0 n) % 2 ^ 64
      ≡ (packets (values m k 0 n) + count k evs) % 2 ^ 64
unfolding run
run-packets n [] m valid complete k hk = omega arith
run-packets n (ev ∷ evs) m (valid, rest) complete k hk =
    let ih =
      run-packets n evs (xdp_stats_record_action ev.ctx ev.action ev.cpu m).1 rest
        (step-IsComplete n ev valid m complete) k hk in
    let st = step-packets n ev valid m complete k hk in omega (arith, ih, st)

pub run-bytes :
    (n : ℕ) (evs : List Event) (m : StatsMap)
    → AllEvents n evs
    → IsComplete n m
    → (k : ℕ) → k < action_max
    → bytes (values (run evs m) k 0 n) % 2 ^ 64 ≡ (bytes (values m k 0 n) + volume k evs) % 2 ^ 64
unfolding run
run-bytes n [] m valid complete k hk = omega arith
run-bytes n (ev ∷ evs) m (valid, rest) complete k hk =
    let ih =
      run-bytes n evs (xdp_stats_record_action ev.ctx ev.action ev.cpu m).1 rest
        (step-IsComplete n ev valid m complete) k hk in
    let st = step-bytes n ev valid m complete k hk in omega (arith, ih, st)

-- A line for each action from `i` on.
abbrev pub lines : ℕ → ℕ → StatsRecord → StatsRecord → List Line
lines zero i rec prev = []
lines (suc left) i rec prev =
    line i (rec i) (prev i) (calc_period (rec i) (prev i)) ∷ lines left (i + 1) rec prev

-- Without a period of 0, stats_print writes a line for each action.
pub print_loop-lines :
    (left i : ℕ) (rec prev : StatsRecord)
    → ((k : ℕ) → i ≤ k → k < i + left → calc_period (rec k) (prev k) ≢ 0)
    → print_loop left i rec prev ≡ lines left i rec prev
unfolding print_loop
print_loop-lines zero i rec prev h = refl
print_loop-lines (suc left) i rec prev h =
    let nonzero = h i (omega arith) (omega arith) in
    let ih = print_loop-lines left (i + 1) rec prev (λ k lo hi. h k (omega arith) (omega arith)) in
    ground arith

abbrev line_of : ℕ → ℕ → ℕ → ℕ → ℕ → ℕ → Line
line_of k period p p_more b b_more = record {
  action = k;
  packets = p;
  packets_more = p_more;
  kbytes = b / 1000;
  bits_more = b_more * 8 % 2 ^ 64;
  period = period;
}

-- The line of an action after the packets `evs`.
abbrev pub polled : ℕ → StatsMap → List Event → ℕ → ℕ → Line
polled n m evs k period = record {
  action = k;
  packets = (packets (values m k 0 n) + count k evs) % 2 ^ 64;
  packets_more = count k evs % 2 ^ 64;
  kbytes = (bytes (values m k 0 n) + volume k evs) % 2 ^ 64 / 1000;
  bits_more = volume k evs % 2 ^ 64 * 8 % 2 ^ 64;
  period = period;
}

module _ (n : ℕ) (m : StatsMap) (evs : List Event) where
  reading-line :
      IsComplete n m
      → AllEvents n evs
      → (now later : ℕ → ℕ) (k period : ℕ) → k < action_max
      → line k (reading n later (run evs m) k) (reading n now m k) period ≡ polled n m evs k period
  reading-line complete valid now later k period hk =
      let p = run-packets n evs m valid complete k hk in
      let b = run-bytes n evs m valid complete k hk in
      ap₂
        (λ (t d : ℕ). line_of k period t d ((bytes (values (run evs m) k 0 n)) % 2 ^ 64) (
          (bytes (values (run evs m) k 0 n) % 2 ^ 64 + 2 ^ 64 - bytes (values m k 0 n) % 2 ^ 64)
          % 2 ^ 64))
        p (omega (arith, p))
      ∙ ap₂
          (λ (t d : ℕ).
            line_of k period ((packets (values m k 0 n) + count k evs) % 2 ^ 64)
              (count k evs % 2 ^ 64) t d)
          b (omega (arith, b))

  abbrev pub report : (now later : ℕ → ℕ) → ℕ → ℕ → List Line
  report now later zero k = []
  report now later (suc left) k = polled n m evs k (later k - now k) ∷ report now later left (k + 1)

  module _ (garbage garbage_later : ℕ → Datarec) (now later : ℕ → ℕ) (prev rec : StatsRecord) where
    abbrev pub first : StatsRecord
    first = stats_collect map_type_percpu_array garbage now (percpu_answer n m) prev

    abbrev pub second : StatsRecord
    second =
        stats_collect map_type_percpu_array garbage_later later (percpu_answer n (run evs m)) rec

    second-period :
        (k : ℕ)
        → k < action_max
        → now k < later k
        → later k < 2 ^ 64
        → calc_period (second k) (first k) ≡ later k - now k
    unfolding calc_period
    second-period k hk lt small =
        ap₂ (λ (r p : Record). (r.timestamp + 2 ^ 64 - p.timestamp) % 2 ^ 64)
          (stats_collect-reading n garbage_later later (run evs m) rec k hk)
          (stats_collect-reading n garbage now m prev k hk)
        ∙ omega arith

    lines-report :
        IsComplete n m
        → AllEvents n evs
        → ((k : ℕ) → k < action_max → (now k < later k) × (later k < 2 ^ 64))
        → (left k : ℕ) → k + left ≤ action_max
        → lines left k second first ≡ report now later left k
    lines-report complete valid clock zero k h = refl
    lines-report complete valid clock (suc left) k h =
        let (lt, small) = clock k (omega arith) in
        let r = stats_collect-reading n garbage_later later (run evs m) rec k (omega arith) in
        let p = stats_collect-reading n garbage now m prev k (omega arith) in
        let t = second-period k (omega arith) lt small in
        ap₂ (λ (x : Line) (xs : List Line). x ∷ xs)
          (ap₂ (λ (a b : Record). line k a b (calc_period (second k) (first k))) r p
            ∙ ap (λ (d : ℕ). line k (reading n later (run evs m) k) (reading n now m k) d) t
            ∙ reading-line complete valid now later k (later k - now k) (omega arith))
          (lines-report complete valid clock left (k + 1) (omega arith))

    -- stats_print of two readings, the second after the packets `evs`, reports per action the
    -- number of these packets modulo 2 ^ 64, their bits, and the totals with those of before: for a
    -- map with a record for each CPU and action, packets on these CPUs, and a clock that has moved
    -- on between the readings of each key.
    pub stats_print-report :
        IsComplete n m
        → AllEvents n evs
        → ((k : ℕ) → k < action_max → (now k < later k) × (later k < 2 ^ 64))
        → stats_print second first ≡ report now later action_max 0
    unfolding stats_print
    stats_print-report complete valid clock =
        print_loop-lines 5 0 second first (λ k lo hi e.
          let (lt, small) = clock k (omega arith) in
          let t = second-period k (omega arith) lt small in omega (arith, e, t))
        ∙ lines-report complete valid clock 5 0 (omega arith)
