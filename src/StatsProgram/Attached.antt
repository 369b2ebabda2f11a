-- ===== src/StatsProgram/Attached.antt =====
-- loader/xdp_stats.c beside one of the programs of loader/xdp_prog_kern.c.
use syncookie_xdp.Prelude.{
  ℕ, ◌+◌, ◌-◌, ◌%◌, ◌≡◌, ◌<◌, ◌^◌, ◌∙◌, refl, ap, sym, List, [], ◌∷◌, arith,
}
use syncookie_xdp.Stats.{
  Datarec, action_max, aborted, drop, pass, XdpMd, StatsMap, xdp_stats_record_action,
  prog_record_action, xdp_pass_func, xdp_drop_func, xdp_abort_func,
}
use syncookie_xdp.Stats.Counting.{
  IsComplete, Event, IsEvent, AllEvents, run, versions_agree, record_at-counted, step-IsComplete,
}
use syncookie_xdp.StatsReader.{map_type_percpu_array}
use syncookie_xdp.StatsProgram.{Meeting, stats_poll}
use syncookie_xdp.StatsProgram.Rounds.{
  Round, meeting, meetings, AllRounds, reports, run-IsComplete, stats_poll-reports,
}

-- The programs of the object file, by their sections.
pub data Section : Type 0 where
  pass_section drop_section abort_section : Section

abbrev pub call : Section → XdpMd → ℕ → StatsMap → ℕ × StatsMap
call pass_section = xdp_pass_func
call drop_section = xdp_drop_func
call abort_section = xdp_abort_func

abbrev pub action_of : Section → ℕ
action_of pass_section = pass
action_of drop_section = drop
action_of abort_section = aborted

call-prog :
    (sec : Section) (ctx : XdpMd) (cpu : ℕ) (m : StatsMap)
    → call sec ctx cpu m ≡ prog_record_action ctx (action_of sec) cpu m
unfolding xdp_pass_func xdp_drop_func xdp_abort_func
call-prog pass_section ctx cpu m = refl
call-prog drop_section ctx cpu m = refl
call-prog abort_section ctx cpu m = refl

action_of-lt : (sec : Section) → action_of sec < action_max
action_of-lt pass_section = omega arith
action_of-lt drop_section = omega arith
action_of-lt abort_section = omega arith

-- A packet, and the CPU that it arrives on.
pub record Arrival : Type 0 where
  pub cpu : ℕ
  pub ctx : XdpMd

-- The packets between two readings, the clock and the uninitialised locals of the second.
pub record Interval : Type 0 where
  pub arrivals : List Arrival
  pub now : ℕ → ℕ
  pub garbage : ℕ → Datarec

module _ (sec : Section) where
  -- One call after another: what the program returns, and the map in the end.
  unfoldable pub handle_packets : List Arrival → StatsMap → List ℕ × StatsMap
  handle_packets [] m = ([], m)
  handle_packets (x ∷ xs) m =
      let (action, m1) = call sec x.ctx x.cpu m in
      let (actions, m2) = handle_packets xs m1 in (action ∷ actions, m2)

  -- The same as events with the action of the program.
  abbrev pub events_of : List Arrival → List Event
  events_of [] = []
  events_of (x ∷ xs) = record { cpu = x.cpu; action = action_of sec; ctx = x.ctx } ∷ events_of xs

  abbrev pub actions_of : List Arrival → List ℕ
  actions_of [] = []
  actions_of (x ∷ xs) = action_of sec ∷ actions_of xs

  call-counts :
      (n : ℕ) (x : Arrival) (m : StatsMap)
      → IsEvent n (record { cpu = x.cpu; action = action_of sec; ctx = x.ctx })
      → IsComplete n m
      → call sec x.ctx x.cpu m
        ≡ (action_of sec, (xdp_stats_record_action x.ctx (action_of sec) x.cpu m).1)
  unfolding xdp_stats_record_action
  call-counts n x m valid complete =
      let (rec, found) = complete x.cpu (action_of sec) valid.cpu-lt (action_of-lt sec) in
      let counted =
        record_at-counted ((x.ctx.packet_end + 2 ^ 32 - x.ctx.packet_start) % 2 ^ 32) x.cpu
          (action_of sec) m rec (action_of-lt sec) found in
      call-prog sec x.ctx x.cpu m
      ∙ (sym (versions_agree x.ctx (action_of sec) x.cpu m valid.order valid.end-lt)
          ∙ ap (λ (r : ℕ). (r, (xdp_stats_record_action x.ctx (action_of sec) x.cpu m).1))
              (ap (λ (r : ℕ × StatsMap). r.0) counted))

  handle_packets-run :
      (n : ℕ) (xs : List Arrival) (m : StatsMap)
      → AllEvents n (events_of xs)
      → IsComplete n m
      → handle_packets xs m ≡ (actions_of xs, run (events_of xs) m)
  unfolding handle_packets run
  handle_packets-run n [] m valid complete = refl
  handle_packets-run n (x ∷ xs) m (valid, rest) complete =
      let m1 = (xdp_stats_record_action x.ctx (action_of sec) x.cpu m).1 in
      let later = handle_packets-run n xs m1 rest (
        step-IsComplete n (record { cpu = x.cpu; action = action_of sec; ctx = x.ctx }) valid m
          complete) in
      rw (call-counts n x m valid complete) (rw later refl)

  abbrev pub round_of : Interval → Round
  round_of i = record { events = events_of i.arrivals; now = i.now; garbage = i.garbage }

  abbrev pub rounds_of : List Interval → List Round
  rounds_of [] = []
  rounds_of (i ∷ is) = round_of i ∷ rounds_of is

  -- What the program returns for the packets, and what the statistics program reads of the map.
  abbrev pub returned : StatsMap → List Interval → List (List ℕ)
  returned m [] = []
  returned m (i ∷ is) =
      (handle_packets i.arrivals m).0 ∷ returned (handle_packets i.arrivals m).1 is

  abbrev pub readings : ℕ → StatsMap → List Interval → List Meeting
  readings n m [] = []
  readings n m (i ∷ is) =
      meeting n i.garbage i.now (handle_packets i.arrivals m).1
      ∷ readings n (handle_packets i.arrivals m).1 is

  abbrev pub all_actions : List Interval → List (List ℕ)
  all_actions [] = []
  all_actions (i ∷ is) = actions_of i.arrivals ∷ all_actions is

  rounds-agree :
      (n : ℕ) (is : List Interval) (m : StatsMap) (now : ℕ → ℕ)
      → IsComplete n m
      → AllRounds n now (rounds_of is)
      → (returned m is ≡ all_actions is) × (readings n m is ≡ meetings n m (rounds_of is))
  rounds-agree n [] m now complete all = (refl, refl)
  rounds-agree n (i ∷ is) m now complete (valid, (clock, all)) =
      let here = handle_packets-run n i.arrivals m valid complete in
      let m1 = run (events_of i.arrivals) m in
      let rest =
        rounds-agree n is m1 i.now (run-IsComplete n (events_of i.arrivals) m valid complete) all in
      rw here
        (ap (◌∷◌ (actions_of i.arrivals)) rest.0, ap (◌∷◌ (meeting n i.garbage i.now m1)) rest.1)

  -- Over any number of rounds, one of the three programs returns its action for every packet, and the
  -- statistics program beside it prints, in each round, the packets since the round before and their
  -- bits, as packets with that action, and the totals, modulo 2 ^ 64. This is for a map with a record
  -- for each CPU and action, which no packet changes while it is read, packets on these CPUs, and a
  -- clock that moves on.
  pub stats_poll-handle_packets :
      (n : ℕ) (is : List Interval) (m : StatsMap) (garbage : ℕ → Datarec) (now : ℕ → ℕ)
      → IsComplete n m
      → AllRounds n now (rounds_of is)
      → (returned m is ≡ all_actions is)
        × (stats_poll map_type_percpu_array (meeting n garbage now m) (readings n m is)
            ≡ reports n m now (rounds_of is))
  stats_poll-handle_packets n is m garbage now complete all =
      let agree = rounds-agree n is m now complete all in
      (
        agree.0,
        ap (stats_poll map_type_percpu_array (meeting n garbage now m)) agree.1
            ∙ stats_poll-reports n (rounds_of is) m garbage now complete all,
      )
