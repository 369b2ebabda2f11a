-- ===== src/Tests/Stats.antt =====
-- The statistics on two CPUs: a run of three packets, and the theorems about it.
use syncookie_xdp.Prelude.{
  ℕ, ◌+◌, ◌≡◌, refl, List, [], ◌∷◌, none, some, arith, ltb, ◌&&◌, if◌then◌else◌,
}
use syncookie_xdp.Stats.{Datarec, XdpMd, StatsMap}
use syncookie_xdp.Stats.Counting.{IsComplete, Event, AllEvents}
use syncookie_xdp.Stats.Polls.{report}

-- A counter about to wrap around.
abbrev full : Datarec
full = record { rx_packets = 0xffffffffffffffff; rx_bytes = 100 }

abbrev pub two_cpus : StatsMap
two_cpus c k = if ltb c 2 && ltb k 5 then some full else none

pub two_cpus-IsComplete : IsComplete 2 two_cpus
two_cpus-IsComplete c k hc hk = (full, ground arith)

abbrev pub frame : XdpMd
frame = record { packet_start = 256; packet_end = 310 }

abbrev pub three : List Event
three =
    record { cpu = 0; action = 2; ctx = frame }
    ∷ record { cpu = 1; action = 2; ctx = frame }
    ∷ record { cpu = 1; action = 1; ctx = frame }
    ∷ []

pub three-AllEvents : AllEvents 2 three
three-AllEvents = (
  record { cpu-lt = omega arith; order = omega arith; end-lt = omega arith },
  (
    record { cpu-lt = omega arith; order = omega arith; end-lt = omega arith },
    (record { cpu-lt = omega arith; order = omega arith; end-lt = omega arith }, tt),
  ),
)

abbrev pub garbage : ℕ → Datarec
garbage k = record { rx_packets = k; rx_bytes = 7 }

abbrev pub now : ℕ → ℕ
now k = 1000 + k

abbrev pub later : ℕ → ℕ
later k = 3000 + k

-- Two packets more for action 2, one for action 1.
report_lines :
    report 2 two_cpus three now later 2 1
    ≡ record {
      action = 1;
      packets = 0xffffffffffffffff;
      packets_more = 1;
      kbytes = 0;
      bits_more = 432;
      period = 2000;
    }
      ∷ record {
        action = 2;
        packets = 0;
        packets_more = 2;
        kbytes = 0;
        bits_more = 864;
        period = 2000;
      }
      ∷ []
report_lines = refl
