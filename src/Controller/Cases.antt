-- ===== src/Controller/Cases.antt =====
-- When `controller` answers, and when it accepts, in words of the packet.
use syncookie_xdp.Prelude.{
  ℕ, ◌≡◌, ◌≢◌, ◌↔◌, ◌⊎◌, inl, inr, refl, Bool, true, false, Option, none, some, arith, ◌==◌, ==_iff,
  if◌then◌else◌,
}
use syncookie_xdp.Packet.{Endian, Mem}
use syncookie_xdp.Headers.Tcp
use syncookie_xdp.Controller.Layout.{flag, ack_no, other_flags}
use syncookie_xdp.Controller.Decision.{
  Decision, handshake, pass_on, refuse, answer, accept, has_one, decide, expected,
}

-- Of the flags that the filter reads only SYN is set.
pub record IsSyn (e : Endian) (m : Mem) : Type 0 where
  pub others : has_one (other_flags e m) ≡ false
  pub syn : flag e m Tcp.syn ≡ 1
  pub no_ack : flag e m Tcp.ack ≢ 1

-- Only ACK is set, and the packet acknowledges the cookie of its connection.
pub record IsCookieAck (e : Endian) (m : Mem) : Type 0 where
  pub others : has_one (other_flags e m) ≡ false
  pub no_syn : flag e m Tcp.syn ≢ 1
  pub ack : flag e m Tcp.ack ≡ 1
  pub number : ack_no e m ≡ expected e m

pub Decision-cases : (d : Decision) → (d ≡ pass_on) ⊎ ((d ≡ refuse) ⊎ ((d ≡ answer) ⊎ (d ≡ accept)))
Decision-cases pass_on = inl refl
Decision-cases refuse = inr (inl refl)
Decision-cases answer = inr (inr (inl refl))
Decision-cases accept = inr (inr (inr refl))

-- The decision on a connection that is not in the table, over the outcomes of its four tests.
abbrev by_tests : (others syn ack number : Bool) → Decision
by_tests others syn ack number = if others then refuse else handshake syn ack number

answer_tests :
    (o s a n : Bool) → (by_tests o s a n ≡ answer) ↔ ((o ≡ false) × (s ≡ true) × (a ≡ false))
answer_tests o s a n = (λ h. ground arith, λ h. ground arith)

accept_tests :
    (o s a n : Bool)
    → (by_tests o s a n ≡ accept) ↔ ((o ≡ false) × (s ≡ false) × (a ≡ true) × (n ≡ true))
accept_tests o s a n = (λ h. ground arith, λ h. ground arith)

never_pass : (o s a n : Bool) → by_tests o s a n ≢ pass_on
never_pass o s a n h = ground arith

test_ne : (a b : ℕ) → ((a == b) ≡ false) ↔ (a ≢ b)
test_ne a b = (λ h. ground arith, λ h. ground arith)

module _ (e : Endian) (m : Mem) where
  abbrev o : Bool
  o = has_one (other_flags e m)

  abbrev s : Bool
  s = flag e m Tcp.syn == 1

  abbrev a : Bool
  a = flag e m Tcp.ack == 1

  abbrev n : Bool
  n = ack_no e m == expected e m

  pub decide-pass_iff : (k : Option ℕ) → (decide k e m ≡ pass_on) ↔ (k ≢ none)
  decide-pass_iff none = (λ h. absurd (never_pass o s a n h), λ h. absurd (h refl))
  decide-pass_iff (some v) = (λ h. λ p. cc, λ h. refl)

  pub decide-answer_iff : (k : Option ℕ) → (decide k e m ≡ answer) ↔ ((k ≡ none) × IsSyn e m)
  decide-answer_iff none = (
    λ h.
        let t = (answer_tests o s a n).0 h in
        (refl, record { others = t.0; syn = (==_iff _ _).0 t.1; no_ack = (test_ne _ _).0 t.2 }),
    λ h. (answer_tests o s a n).1 (h.1.others, (==_iff _ _).1 h.1.syn, (test_ne _ _).1 h.1.no_ack),
  )
  decide-answer_iff (some v) = (λ h. cc, λ h. cc)

  pub decide-accept_iff : (k : Option ℕ) → (decide k e m ≡ accept) ↔ ((k ≡ none) × IsCookieAck e m)
  decide-accept_iff none = (
    λ h.
        let t = (accept_tests o s a n).0 h in
        (
          refl,
          record {
            others = t.0;
            no_syn = (test_ne _ _).0 t.1;
            ack = (==_iff _ _).0 t.2;
            number = (==_iff _ _).0 t.3;
          },
        ),
    λ h.
        (accept_tests o s a n).1 (
          h.1.others,
          (test_ne _ _).1 h.1.no_syn,
          (==_iff _ _).1 h.1.ack,
          (==_iff _ _).1 h.1.number,
        ),
  )
  decide-accept_iff (some v) = (λ h. cc, λ h. cc)

  pub decide-refuse_iff :
      (k : Option ℕ) → (decide k e m ≡ refuse) ↔ ((k ≡ none) × ¬ IsSyn e m × ¬ IsCookieAck e m)
  decide-refuse_iff (some v) = (λ h. cc, λ h. cc)
  decide-refuse_iff none = (
    λ h. (
      refl,
      λ syn. cc (h, (decide-answer_iff none).1 (refl, syn)),
      λ ack. cc (h, (decide-accept_iff none).1 (refl, ack)),
    ),
    λ h. elim (Decision-cases (decide none e m)) [
      | inl p ↦ absurd ((decide-pass_iff none).0 p refl)
      | inr (inl r) ↦ r
      | inr (inr (inl a)) ↦ absurd (h.1 ((decide-answer_iff none).0 a).1)
      | inr (inr (inr a)) ↦ absurd (h.2 ((decide-accept_iff none).0 a).1)
    ],
  )
