-- ===== src/Tests/StatsProgram.antt =====
-- The statistics program: two rounds on two CPUs, and a map that it accepts.
use syncookie_xdp.Prelude.{
  ℕ, ◌+◌, ◌≡◌, ◌≢◌, ◌⊎◌, refl, List, [], ◌∷◌, some, arith, codes, true, false,
}
use syncookie_xdp.Prelude.Int.{ℤ, pos}
use syncookie_xdp.Attach.MapInfo.{BpfMapInfo}
use syncookie_xdp.Loader.{Config}
use syncookie_xdp.StatsReader.{map_type_percpu_array}
use syncookie_xdp.StatsProgram.{
  stats_map_fd, main, polls, exits_with, no_info, map_expect, stats_poll, Ending, run_program,
}
use syncookie_xdp.StatsProgram.Program.{IsStarted, run_program-outcome}
use syncookie_xdp.CommandLine.{Opt}
use syncookie_xdp.CommandLine.Accepted.{AllTexts}
use syncookie_xdp.StatsProgram.Attached.{
  Interval, drop_section, returned, readings, rounds_of, stats_poll-handle_packets,
}
use syncookie_xdp.StatsProgram.Rounds.{Round, meeting, meetings, reports, stats_poll-reports}
use syncookie_xdp.Tests.Stats.{
  frame, two_cpus, two_cpus-IsComplete, three, three-AllEvents, garbage, now, later,
}

-- The three packets, and a round without any.
abbrev two_rounds : List Round
two_rounds =
    record { events = three; now = later; garbage = garbage }
    ∷ record { events = []; now = λ k. 5000 + k; garbage = garbage }
    ∷ []

stats_poll-reports_example :
    stats_poll map_type_percpu_array
      (meeting 2 garbage now two_cpus)
      (meetings 2 two_cpus two_rounds)
    ≡ reports 2 two_cpus now two_rounds
stats_poll-reports_example =
    stats_poll-reports 2 two_rounds two_cpus garbage now two_cpus-IsComplete (
      three-AllEvents,
      ((λ k h. (omega arith, omega arith)), (tt, ((λ k h. (omega arith, omega arith)), tt))),
    )

-- Two packets that are dropped, and then one.
abbrev two_intervals : List Interval
two_intervals =
    record {
      arrivals = record { cpu = 0; ctx = frame } ∷ record { cpu = 1; ctx = frame } ∷ [];
      now = later;
      garbage = garbage;
    }
    ∷ record {
      arrivals = record { cpu = 1; ctx = frame } ∷ [];
      now = λ k. 5000 + k;
      garbage = garbage;
    }
    ∷ []

stats_poll-handle_packets_example :
    (returned drop_section two_cpus two_intervals ≡ (1 ∷ 1 ∷ []) ∷ (1 ∷ []) ∷ [])
    × (stats_poll map_type_percpu_array
          (meeting 2 garbage now two_cpus)
          (readings drop_section 2 two_cpus two_intervals)
        ≡ reports 2 two_cpus now (rounds_of drop_section two_intervals))
stats_poll-handle_packets_example =
    stats_poll-handle_packets drop_section 2 two_intervals two_cpus garbage now two_cpus-IsComplete
      (
        (
          record { cpu-lt = omega arith; order = omega arith; end-lt = omega arith },
          (record { cpu-lt = omega arith; order = omega arith; end-lt = omega arith }, tt),
        ),
        (
          (λ k h. (omega arith, omega arith)),
          (
            (record { cpu-lt = omega arith; order = omega arith; end-lt = omega arith }, tt),
            ((λ k h. (omega arith, omega arith)), tt),
          ),
        ),
      )

abbrev get_fd : List ℕ → ℤ
get_fd name = pos 5

abbrev get_info : ℤ → BpfMapInfo → ℤ × BpfMapInfo
get_info map_fd info = (pos 0, record map_expect { map_type = map_type_percpu_array })

abbrev cfg : Config
cfg = record {
  xdp_flags = 0;
  ifindex = some 3;
  ifname = codes "eth0";
  redirect_ifindex = 0;
  redirect_ifname = [];
  do_unload = false;
  filename = [];
  progsec = [];
  src_mac = [];
  dest_mac = [];
}

run_main : main get_fd get_info cfg ≡ polls (pos 5) (get_info (pos 5) no_info).1
unfolding main
run_main = refl

-- `-d eth0`
abbrev stats_opts : List Opt
stats_opts = record { opt = b'd'; optarg = codes "eth0" } ∷ []

abbrev index_five : List ℕ → ℕ
index_five name = 5

stats_opts-AllTexts : AllTexts stats_opts
stats_opts-AllTexts = ((omega arith, (omega arith, (omega arith, (omega arith, tt)))), tt)

abbrev stats_run : Ending
stats_run = run_program get_fd get_info index_five true (codes "xdp_stats") stats_opts

run_program-outcome_example :
    ((st : IsStarted get_fd get_info index_five true
        (codes "xdp_stats")
        stats_opts
        stats_opts-AllTexts)
      × (stats_run
          ≡ polls
              (stats_map_fd get_fd get_info st.name)
              (get_info (stats_map_fd get_fd get_info st.name) no_info).1))
    ⊎ ((code : ℕ) × (stats_run ≡ exits_with code)
        × (code ≢ 0)
        × ¬ IsStarted get_fd get_info index_five true
            (codes "xdp_stats")
            stats_opts
            stats_opts-AllTexts)
run_program-outcome_example =
    run_program-outcome get_fd get_info index_five true (codes "xdp_stats") stats_opts
      stats_opts-AllTexts

run_stats : stats_run ≡ polls (pos 5) (get_info (pos 5) no_info).1
unfolding run_program
run_stats = refl
