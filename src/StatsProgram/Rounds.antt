-- ===== src/StatsProgram/Rounds.antt =====
-- What loader/xdp_stats.c prints, round after round.
use syncookie_xdp.Prelude.{ℕ, ◌≡◌, ◌<◌, ◌^◌, refl, List, [], ◌∷◌, ap₂}
use syncookie_xdp.Stats.{Datarec, action_max, StatsMap, xdp_stats_record_action}
use syncookie_xdp.Stats.Collect.{percpu_answer}
use syncookie_xdp.Stats.Counting.{IsComplete, Event, AllEvents, run, step-IsComplete}
use syncookie_xdp.Stats.Polls.{report, stats_print-report}
use syncookie_xdp.StatsReader.{StatsRecord, Line, map_type_percpu_array}
use syncookie_xdp.StatsProgram.{Meeting, collect, poll_rounds, zero_record, stats_poll}

-- Between two readings: the packets that the program is called for, and of the second reading the
-- clock, and what the uninitialised locals hold.
pub record Round : Type 0 where
  pub events : List Event
  pub now : ℕ → ℕ
  pub garbage : ℕ → Datarec

-- A reading of the kernel's map, into which no packet comes: the program asks for one key after
-- another, and is answered for all of them from the same map.
abbrev pub meeting : ℕ → (ℕ → Datarec) → (ℕ → ℕ) → StatsMap → Meeting
meeting n garbage now m = record { garbage = garbage; now = now; answer = percpu_answer n m }

abbrev pub meetings : ℕ → StatsMap → List Round → List Meeting
meetings n m [] = []
meetings n m (r ∷ rest) =
    meeting n r.garbage r.now (run r.events m) ∷ meetings n (run r.events m) rest

-- The packets are of the CPUs, and the clock moves on between the readings of each key.
abbrev pub AllRounds : ℕ → (ℕ → ℕ) → List Round → Type 0
AllRounds n now [] = Unit
AllRounds n now (r ∷ rest) =
    AllEvents n r.events
    × (((k : ℕ) → k < action_max → (now k < r.now k) × (r.now k < 2 ^ 64)) × AllRounds n r.now rest)

-- The reports of the rounds: of each, its own packets and the totals up to it.
abbrev pub reports : ℕ → StatsMap → (ℕ → ℕ) → List Round → List (List Line)
reports n m now [] = []
reports n m now (r ∷ rest) =
    report n m r.events now r.now action_max 0 ∷ reports n (run r.events m) r.now rest

pub run-IsComplete :
    (n : ℕ) (evs : List Event) (m : StatsMap)
    → AllEvents n evs
    → IsComplete n m
    → IsComplete n (run evs m)
unfolding run
run-IsComplete n [] m valid complete = complete
run-IsComplete n (ev ∷ evs) m (valid, rest) complete =
    run-IsComplete n evs (xdp_stats_record_action ev.ctx ev.action ev.cpu m).1 rest
      (step-IsComplete n ev valid m complete)

poll_rounds-reports :
    (n : ℕ) (rounds : List Round) (m : StatsMap) (garbage : ℕ → Datarec) (now : ℕ → ℕ)
    (prev : StatsRecord)
    → IsComplete n m
    → AllRounds n now rounds
    → poll_rounds map_type_percpu_array
        (meetings n m rounds)
        (collect map_type_percpu_array (meeting n garbage now m) prev)
      ≡ reports n m now rounds
unfolding poll_rounds
poll_rounds-reports n [] m garbage now prev complete all = refl
poll_rounds-reports n (r ∷ rest) m garbage now prev complete (valid, (clock, all)) =
    let record0 = collect map_type_percpu_array (meeting n garbage now m) prev in
    ap₂ (λ (x : List Line) (xs : List (List Line)). x ∷ xs)
      (stats_print-report n m r.events garbage r.garbage now r.now prev record0 complete valid
        clock)
      (poll_rounds-reports n rest (run r.events m) r.garbage r.now record0
        (run-IsComplete n r.events m valid complete) all)

-- Each round of stats_poll on the map that the kernel program writes prints, for each action, the
-- packets that the program was called for since the round before and their bits, and the totals,
-- modulo 2 ^ 64; whatever the uninitialised locals hold. This is for any number of rounds, a map
-- with a record for each CPU and action, which no packet changes while it is read, packets on these
-- CPUs, and a clock that moves on.
pub stats_poll-reports :
    (n : ℕ) (rounds : List Round) (m : StatsMap) (garbage : ℕ → Datarec) (now : ℕ → ℕ)
    → IsComplete n m
    → AllRounds n now rounds
    → stats_poll map_type_percpu_array (meeting n garbage now m) (meetings n m rounds)
      ≡ reports n m now rounds
unfolding stats_poll
stats_poll-reports n rounds m garbage now complete all =
    poll_rounds-reports n rounds m garbage now zero_record complete all
