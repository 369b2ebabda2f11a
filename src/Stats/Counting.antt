-- ===== src/Stats/Counting.antt =====
-- What one call counts, over the two versions of xdp_stats_record_action.
use syncookie_xdp.Prelude.{
  ℕ, ◌+◌, ◌-◌, ◌%◌, ◌^◌, ◌≤◌, ◌<◌, ◌≡◌, ◌⊎◌, inl, inr, List, [], ◌∷◌, Option, some, arith, ◌==◌,
  if◌then◌else◌, Bool-cases, ap, leb, subst, sym, ◌&&◌, ◌∙◌,
}
use syncookie_xdp.Stats.{
  Datarec, action_max, aborted, XdpMd, StatsMap, store, count_packet, record_at,
  xdp_stats_record_action, prog_record_action,
}
use syncookie_xdp.Stats.Totals.{
  held, values, packets, bytes, values-store_ne, packets-store, bytes-store,
}

-- The two versions of xdp_stats_record_action give the same result and the same map, for a
-- context whose end is a __u32 and not before its start.
pub versions_agree :
    (ctx : XdpMd) (action cpu : ℕ) (m : StatsMap)
    → ctx.packet_start ≤ ctx.packet_end
    → ctx.packet_end < 2 ^ 32
    → xdp_stats_record_action ctx action cpu m ≡ prog_record_action ctx action cpu m
unfolding xdp_stats_record_action prog_record_action
versions_agree ctx action cpu m order small =
    let e : (ctx.packet_end + 2 ^ 32 - ctx.packet_start) % 2 ^ 32
        ≡ (ctx.packet_end + 2 ^ 64 - ctx.packet_start) % 2 ^ 64 =
      omega arith in
    ap (λ (n : ℕ). record_at n cpu action m) e

-- The kernel has a record for each of `n` CPUs and each action.
abbrev pub IsComplete : ℕ → StatsMap → Type 0
IsComplete n m = (c k : ℕ) → c < n → k < action_max → (rec : Datarec) × (m c k ≡ some rec)

-- A packet that the program is called for: on which CPU, with which action, and its context.
pub record Event : Type 0 where
  pub cpu : ℕ
  pub action : ℕ
  pub ctx : XdpMd

abbrev pub size : XdpMd → ℕ
size ctx = ctx.packet_end - ctx.packet_start

-- What the kernel guarantees of an event.
pub record IsEvent (n : ℕ) (ev : Event) : Type 0 where
  pub cpu-lt : ev.cpu < n
  pub order : ev.ctx.packet_start ≤ ev.ctx.packet_end
  pub end-lt : ev.ctx.packet_end < 2 ^ 32

abbrev pub AllEvents : ℕ → List Event → Type 0
AllEvents n [] = Unit
AllEvents n (ev ∷ evs) = IsEvent n ev × AllEvents n evs

-- One call after another.
unfoldable pub run : List Event → StatsMap → StatsMap
run [] m = m
run (ev ∷ evs) m = run evs (xdp_stats_record_action ev.ctx ev.action ev.cpu m).1

-- The packets with an action, and their bytes.
abbrev pub count : ℕ → List Event → ℕ
count k [] = 0
count k (ev ∷ evs) = (if ev.action == k then 1 else 0) + count k evs

abbrev pub volume : ℕ → List Event → ℕ
volume k [] = 0
volume k (ev ∷ evs) = (if ev.action == k then size ev.ctx else 0) + volume k evs

-- The two ways that a call ends.
record_at-refused :
    (size cpu action : ℕ) (m : StatsMap)
    → action_max ≤ action
    → record_at size cpu action m ≡ (aborted, m)
record_at-refused size cpu action m high = ground arith

pub record_at-counted :
    (size cpu action : ℕ) (m : StatsMap) (rec : Datarec)
    → action < action_max
    → m cpu action ≡ some rec
    → record_at size cpu action m ≡ (action, store m cpu action (count_packet rec size))
record_at-counted size cpu action m rec low found = ground arith

module _ (n cpu action size : ℕ) (m : StatsMap) (rec : Datarec) (here : cpu < n)
    (found : m cpu action ≡ some rec) where
  abbrev counted : StatsMap
  counted = store m cpu action (count_packet rec size)

  counted-IsComplete : IsComplete n m → IsComplete n counted
  counted-IsComplete complete c k hc hk = elim (Bool-cases (c == cpu && k == action)) [
    | inl same ↦ (count_packet rec size, ground arith)
    | inr other ↦ let (old, e) = complete c k hc hk in (old, ground arith)
  ]

  here-packets :
      packets (values counted action 0 n) % 2 ^ 64 ≡ (packets (values m action 0 n) + 1) % 2 ^ 64
  here-packets = omega (
    arith,
    packets-store m cpu action (count_packet rec size) 0 n (omega arith) (omega arith),
    ap (λ (r : Option Datarec). (held r).rx_packets) found,
  )

  counted-packets :
      (k : ℕ)
      → packets (values counted k 0 n) % 2 ^ 64
        ≡ (packets (values m k 0 n) + (if action == k then 1 else 0)) % 2 ^ 64
  counted-packets k = elim (Bool-cases (action == k)) [
    | inl same ↦
        subst
          (λ (j : ℕ).
            packets (values counted j 0 n) % 2 ^ 64
            ≡ (packets (values m j 0 n) + (if action == j then 1 else 0)) % 2 ^ 64)
          (ground arith) (here-packets ∙ ground arith)
    | inr other ↦ ground (
      arith,
      ap packets (values-store_ne m cpu action (count_packet rec size) k 0 n (inl (ground arith))),
    )
  ]

  here-bytes :
      bytes (values counted action 0 n) % 2 ^ 64 ≡ (bytes (values m action 0 n) + size) % 2 ^ 64
  here-bytes = omega (
    arith,
    bytes-store m cpu action (count_packet rec size) 0 n (omega arith) (omega arith),
    ap (λ (r : Option Datarec). (held r).rx_bytes) found,
  )

  counted-bytes :
      (k : ℕ)
      → bytes (values counted k 0 n) % 2 ^ 64
        ≡ (bytes (values m k 0 n) + (if action == k then size else 0)) % 2 ^ 64
  counted-bytes k = elim (Bool-cases (action == k)) [
    | inl same ↦
        subst
          (λ (j : ℕ).
            bytes (values counted j 0 n) % 2 ^ 64
            ≡ (bytes (values m j 0 n) + (if action == j then size else 0)) % 2 ^ 64)
          (ground arith) (here-bytes ∙ ground arith)
    | inr other ↦ ground (
      arith,
      ap bytes (values-store_ne m cpu action (count_packet rec size) k 0 n (inl (ground arith))),
    )
  ]

module _ (n : ℕ) (ev : Event) (valid : IsEvent n ev) (m : StatsMap)
    (complete : IsComplete n m) where
  abbrev after : StatsMap
  after = (xdp_stats_record_action ev.ctx ev.action ev.cpu m).1

  size-eq : (ev.ctx.packet_end + 2 ^ 32 - ev.ctx.packet_start) % 2 ^ 32 ≡ size ev.ctx
  size-eq = let o = valid.order in let l = valid.end-lt in omega arith

  -- After a call the map is as before, or one record has counted the packet.
  after-eq :
      ((action_max ≤ ev.action) × (after ≡ m))
      ⊎ ((ev.action < action_max)
          × ((rec : Datarec) × ((m ev.cpu ev.action ≡ some rec)
                × (after ≡ store m ev.cpu ev.action (count_packet rec (size ev.ctx))))))
  unfolding xdp_stats_record_action
  after-eq = elim (Bool-cases (leb action_max ev.action)) [
    | inl high ↦ inl (
      ground arith,
      ap (λ (p : ℕ × StatsMap). p.1)
          (record_at-refused ((ev.ctx.packet_end + 2 ^ 32 - ev.ctx.packet_start) % 2 ^ 32) ev.cpu
            ev.action m (ground arith)),
    )
    | inr low ↦
        let (rec, e) = complete ev.cpu ev.action valid.cpu-lt (ground arith) in
        inr (
          ground arith,
          (
            rec,
            (
              e,
              ap (λ (p : ℕ × StatsMap). p.1)
                    (record_at-counted ((ev.ctx.packet_end + 2 ^ 32 - ev.ctx.packet_start) % 2 ^ 32)
                      ev.cpu ev.action m rec (ground arith) e)
                  ∙ ap (λ (b : ℕ). store m ev.cpu ev.action (count_packet rec b)) size-eq,
            ),
          ),
        )
  ]

  pub step-IsComplete : IsComplete n after
  step-IsComplete = elim after-eq [
    | inl (high, e) ↦ subst (IsComplete n) (sym e) complete
    | inr (low, (rec, (found, e))) ↦
        subst (IsComplete n) (sym e)
          (counted-IsComplete n ev.cpu ev.action (size ev.ctx) m rec valid.cpu-lt found complete)
  ]

  pub step-packets :
      (k : ℕ)
      → k < action_max
      → packets (values after k 0 n) % 2 ^ 64
        ≡ (packets (values m k 0 n) + (if ev.action == k then 1 else 0)) % 2 ^ 64
  step-packets k hk = elim after-eq [
    | inl (high, e) ↦ ap (λ (t : StatsMap). packets (values t k 0 n) % 2 ^ 64) e ∙ ground arith
    | inr (low, (rec, (found, e))) ↦
        ap (λ (t : StatsMap). packets (values t k 0 n) % 2 ^ 64) e
        ∙ counted-packets n ev.cpu ev.action (size ev.ctx) m rec valid.cpu-lt found k
  ]

  pub step-bytes :
      (k : ℕ)
      → k < action_max
      → bytes (values after k 0 n) % 2 ^ 64
        ≡ (bytes (values m k 0 n) + (if ev.action == k then size ev.ctx else 0)) % 2 ^ 64
  step-bytes k hk = elim after-eq [
    | inl (high, e) ↦ ap (λ (t : StatsMap). bytes (values t k 0 n) % 2 ^ 64) e ∙ ground arith
    | inr (low, (rec, (found, e))) ↦
        ap (λ (t : StatsMap). bytes (values t k 0 n) % 2 ^ 64) e
        ∙ counted-bytes n ev.cpu ev.action (size ev.ctx) m rec valid.cpu-lt found k
  ]
