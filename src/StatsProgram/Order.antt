-- ===== src/StatsProgram/Order.antt =====
-- What loader/xdp_stats.c prints does not depend on the order of the packets, nor on their CPUs.
use mathlib.Core.List.{Perm, Permᴰ, Forall₂}
use mathlib.Core.Logic.{∥∥₁_elim}
use native.Mathlib.Nat.{ℕ_set}
use syncookie_xdp.Prelude.{
  ℕ, zero, suc, ◌+◌, ◌-◌, ◌*◌, ◌/◌, ◌%◌, ◌^◌, ◌≡◌, ◌<◌, ◌≤◌, ◌==◌, ◌∙◌, if◌then◌else◌, refl, ap,
  ap₂, sym, subst, List, [], ◌∷◌, arith,
}
use syncookie_xdp.Stats.{Datarec, action_max, StatsMap}
use syncookie_xdp.Stats.Totals.{values, packets, bytes}
use syncookie_xdp.Stats.Counting.{IsComplete, Event, AllEvents, run, count, volume, size}
use syncookie_xdp.Stats.Polls.{polled, report, run-packets, run-bytes}
use syncookie_xdp.StatsReader.{Line, map_type_percpu_array}
use syncookie_xdp.StatsProgram.{stats_poll}
use syncookie_xdp.StatsProgram.Rounds.{
  Round, meeting, meetings, AllRounds, reports, run-IsComplete, stats_poll-reports,
}

-- A packet as the report counts it.
pub record Packet : Type 0 where
  pub action : ℕ
  pub size : ℕ

abbrev pub packets_of : List Event → List Packet
packets_of [] = []
packets_of (ev ∷ evs) = record { action = ev.action; size = size ev.ctx } ∷ packets_of evs

abbrev sum : (Packet → ℕ) → List Packet → ℕ
sum f [] = 0
sum f (p ∷ ps) = f p + sum f ps

-- A packet counts for its action.
abbrev one_of : ℕ → Packet → ℕ
one_of k p = if p.action == k then 1 else 0

abbrev size_of : ℕ → Packet → ℕ
size_of k p = if p.action == k then p.size else 0

count-sum : (k : ℕ) (evs : List Event) → count k evs ≡ sum (one_of k) (packets_of evs)
count-sum k [] = refl
count-sum k (ev ∷ evs) = ap (◌+◌ (if ev.action == k then 1 else 0)) (count-sum k evs)

volume-sum : (k : ℕ) (evs : List Event) → volume k evs ≡ sum (size_of k) (packets_of evs)
volume-sum k [] = refl
volume-sum k (ev ∷ evs) = ap (◌+◌ (if ev.action == k then size ev.ctx else 0)) (volume-sum k evs)

sum-permᴰ : (f : Packet → ℕ) {ps qs : List Packet} → Permᴰ ps qs → sum f ps ≡ sum f qs
sum-permᴰ f Permᴰ.nil = refl
sum-permᴰ f (Permᴰ.cons e h) = ap₂ ◌+◌ (ap f e) (sum-permᴰ f h)
sum-permᴰ f (Permᴰ.swap {a} {b} {a'} {b'} {l} e e') =
    let p : f a ≡ f b' = ap f e in let q : f b ≡ f a' = ap f e' in omega arith
sum-permᴰ f (Permᴰ.trans h h') = sum-permᴰ f h ∙ sum-permᴰ f h'

-- The same packets, in any order and on any CPUs.
abbrev pub SamePackets : List Event → List Event → Type 0
SamePackets evs evs' = Perm (packets_of evs) (packets_of evs')

sum-perm : (f : Packet → ℕ) {ps qs : List Packet} → Perm ps qs → sum f ps ≡ sum f qs
sum-perm f h = ∥∥₁_elim h (ℕ_set _ _) (sum-permᴰ f)

count-SamePackets :
    (k : ℕ) (evs evs' : List Event) → SamePackets evs evs' → count k evs ≡ count k evs'
count-SamePackets k evs evs' same =
    count-sum k evs ∙ (sum-perm (one_of k) same ∙ sym (count-sum k evs'))

volume-SamePackets :
    (k : ℕ) (evs evs' : List Event) → SamePackets evs evs' → volume k evs ≡ volume k evs'
volume-SamePackets k evs evs' same =
    volume-sum k evs ∙ (sum-perm (size_of k) same ∙ sym (volume-sum k evs'))

-- Maps whose totals over the CPUs are the same, as counters of 64 bits.
pub record IsLevel (n : ℕ) (m m' : StatsMap) : Type 0 where
  pub packets_same :
      (k : ℕ)
      → k < action_max
      → packets (values m k 0 n) % 2 ^ 64 ≡ packets (values m' k 0 n) % 2 ^ 64
  pub bytes_same :
      (k : ℕ) → k < action_max → bytes (values m k 0 n) % 2 ^ 64 ≡ bytes (values m' k 0 n) % 2 ^ 64

module _ (n : ℕ) (m m' : StatsMap) (evs evs' : List Event) (level : IsLevel n m m')
    (same : SamePackets evs evs') where
  run-IsLevel :
      IsComplete n m
      → IsComplete n m'
      → AllEvents n evs
      → AllEvents n evs'
      → IsLevel n (run evs m) (run evs' m')
  run-IsLevel complete complete' valid valid' = record {
    packets_same = λ k hk.
        let a = run-packets n evs m valid complete k hk in
        let b = run-packets n evs' m' valid' complete' k hk in
        let c = count-SamePackets k evs evs' same in let d = level.packets_same k hk in omega arith;
    bytes_same = λ k hk.
        let a = run-bytes n evs m valid complete k hk in
        let b = run-bytes n evs' m' valid' complete' k hk in
        let c = volume-SamePackets k evs evs' same in let d = level.bytes_same k hk in omega arith;
  }

  polled-same :
      (k period : ℕ) → k < action_max → polled n m evs k period ≡ polled n m' evs' k period
  polled-same k period hk =
      let c = count-SamePackets k evs evs' same in
      let v = volume-SamePackets k evs evs' same in
      let p = level.packets_same k hk in
      let b = level.bytes_same k hk in
      let all : (packets (values m k 0 n) + count k evs) % 2 ^ 64
          ≡ (packets (values m' k 0 n) + count k evs') % 2 ^ 64 =
        omega arith in
      let volumes : (bytes (values m k 0 n) + volume k evs) % 2 ^ 64
          ≡ (bytes (values m' k 0 n) + volume k evs') % 2 ^ 64 =
        omega arith in
      λ i. record {
        action = k;
        packets = all i;
        packets_more = c i % 2 ^ 64;
        kbytes = volumes i / 1000;
        bits_more = v i % 2 ^ 64 * 8 % 2 ^ 64;
        period = period;
      }

  report-same :
      (now later : ℕ → ℕ) (left k : ℕ)
      → k + left ≤ action_max
      → report n m evs now later left k ≡ report n m' evs' now later left k
  report-same now later zero k h = refl
  report-same now later (suc left) k h =
      ap₂ (λ (x : Line) (xs : List Line). x ∷ xs) (polled-same k (later k - now k) (omega arith))
        (report-same now later left (k + 1) (omega arith))

-- A round of two runs: the same packets, read at the same times.
pub record IsSameRound (r r' : Round) : Type 0 where
  pub packets_same : SamePackets r.events r'.events
  pub times : r.now ≡ r'.now

reports-same :
    (n : ℕ) (m m' : StatsMap) (now : ℕ → ℕ) {rs rs' : List Round}
    → Forall₂ IsSameRound rs rs'
    → IsLevel n m m'
    → IsComplete n m
    → IsComplete n m'
    → AllRounds n now rs
    → AllRounds n now rs'
    → reports n m now rs ≡ reports n m' now rs'
reports-same n m m' now Forall₂.nil level complete complete' all all' = refl
reports-same n m m' now (Forall₂.cons {a = r} {b = r'} {l₁ = rs} {l₂ = rs'} here rest) level
      complete complete' (valid, (clock, all)) (valid', (clock', all')) =
    ap₂ (λ (x : List Line) (xs : List (List Line)). x ∷ xs)
      (report-same n m m' r.events r'.events level here.packets_same now r.now action_max 0
          (omega arith)
        ∙ ap (λ (t : ℕ → ℕ). report n m' r'.events now t action_max 0) here.times)
      (reports-same n (run r.events m) (run r'.events m') r.now rest
          (run-IsLevel n m m' r.events r'.events level here.packets_same complete complete' valid
            valid')
          (run-IsComplete n r.events m valid complete)
          (run-IsComplete n r'.events m' valid' complete') all
          (subst (λ (t : ℕ → ℕ). AllRounds n t rs') (sym here.times) all')
        ∙ ap (λ (t : ℕ → ℕ). reports n (run r'.events m') t rs') here.times)

-- Whatever the order of the packets between two readings, and on whatever CPUs they arrive, the
-- statistics program prints the same, in every round: only the actions and the sizes of the packets
-- count, and the times of the readings. This is for maps with a record for each CPU and action, which
-- no packet changes while they are read, packets on these CPUs, and a clock that moves on.
pub stats_poll-order :
    (n : ℕ) (m : StatsMap) (garbage garbage' : ℕ → Datarec) (now : ℕ → ℕ) (rs rs' : List Round)
    → IsComplete n m
    → AllRounds n now rs
    → AllRounds n now rs'
    → Forall₂ IsSameRound rs rs'
    → stats_poll map_type_percpu_array (meeting n garbage now m) (meetings n m rs)
      ≡ stats_poll map_type_percpu_array (meeting n garbage' now m) (meetings n m rs')
stats_poll-order n m garbage garbage' now rs rs' complete all all' same =
    stats_poll-reports n rs m garbage now complete all
    ∙ (reports-same n m m now same
          (record { packets_same = λ k hk. refl; bytes_same = λ k hk. refl }) complete complete all
          all'
        ∙ sym (stats_poll-reports n rs' m garbage' now complete all'))
