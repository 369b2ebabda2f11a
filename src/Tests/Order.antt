-- ===== src/Tests/Order.antt =====
-- Three packets on two CPUs, and the same in another order on one.
use mathlib.Core.List.Permᴰ
use syncookie_xdp.Prelude.{◌≡◌, refl, List, [], ◌∷◌, arith}
use syncookie_xdp.Stats.Counting.{Event, AllEvents}
use syncookie_xdp.StatsReader.{map_type_percpu_array}
use syncookie_xdp.StatsProgram.{stats_poll}
use syncookie_xdp.StatsProgram.Rounds.{Round, meeting, meetings}
use syncookie_xdp.StatsProgram.Order.{SamePackets, stats_poll-order}
use mathlib.Core.List.{Forall₂}
use syncookie_xdp.Tests.Stats.{
  two_cpus, two_cpus-IsComplete, three, three-AllEvents, garbage, now, later, frame,
}

abbrev reordered : List Event
reordered =
    record { cpu = 1; action = 2; ctx = frame }
    ∷ record { cpu = 1; action = 1; ctx = frame }
    ∷ record { cpu = 1; action = 2; ctx = frame }
    ∷ []

reordered-AllEvents : AllEvents 2 reordered
reordered-AllEvents = (
  record { cpu-lt = omega arith; order = omega arith; end-lt = omega arith },
  (
    record { cpu-lt = omega arith; order = omega arith; end-lt = omega arith },
    (record { cpu-lt = omega arith; order = omega arith; end-lt = omega arith }, tt),
  ),
)

three-SamePackets : SamePackets three reordered
three-SamePackets = ∣ Permᴰ.cons refl (Permᴰ.swap refl refl) ∣₁

abbrev one_round : List Event → List Round
one_round evs = record { events = evs; now = later; garbage = garbage } ∷ []

stats_poll-order_example :
    stats_poll map_type_percpu_array
      (meeting 2 garbage now two_cpus)
      (meetings 2 two_cpus (one_round three))
    ≡ stats_poll map_type_percpu_array
        (meeting 2 garbage now two_cpus)
        (meetings 2 two_cpus (one_round reordered))
stats_poll-order_example =
    stats_poll-order 2 two_cpus garbage garbage now (one_round three) (one_round reordered)
      two_cpus-IsComplete (three-AllEvents, ((λ k h. (omega arith, omega arith)), tt))
      (reordered-AllEvents, ((λ k h. (omega arith, omega arith)), tt))
      (Forall₂.cons (record { packets_same = three-SamePackets; times = refl }) Forall₂.nil)
