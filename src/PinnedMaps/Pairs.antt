-- ===== src/PinnedMaps/Pairs.antt =====
-- Two lists of entries, the second what a loop makes of the first, related one by one.
use syncookie_xdp.Prelude.{List, [], ◌∷◌}
use syncookie_xdp.PinnedMaps.{BpfPinnedMap, reset, reset_all}

pub data Pairs {ℓ} (R : BpfPinnedMap → BpfPinnedMap → Type ℓ)
    : List BpfPinnedMap → List BpfPinnedMap → Type ℓ where
  none_left : Pairs R [] []
  both :
      {p q : BpfPinnedMap} {ps qs : List BpfPinnedMap}
      → R p q
      → Pairs R ps qs
      → Pairs R (p ∷ ps) (q ∷ qs)

module _ {ℓ ℓ' ℓ''} {R : BpfPinnedMap → BpfPinnedMap → Type ℓ}
    {S : BpfPinnedMap → BpfPinnedMap → Type ℓ'} {T : BpfPinnedMap → BpfPinnedMap → Type ℓ''} where
  -- One loop after another.
  pub compose :
      ((p q r : BpfPinnedMap) → R p q → S q r → T p r)
      → {ps qs rs : List BpfPinnedMap} → Pairs R ps qs
      → Pairs S qs rs
      → Pairs T ps rs
  compose step none_left none_left = none_left
  compose step (both a more) (both b others) = both (step _ _ _ a b) (compose step more others)

module _ {ℓ} (R : BpfPinnedMap → BpfPinnedMap → Type ℓ) where
  pub every : ((p : BpfPinnedMap) → R p p) → (ps : List BpfPinnedMap) → Pairs R ps ps
  every same [] = none_left
  every same (p ∷ ps) = both (same p) (every same ps)

  pub after_reset :
      (ps qs : List BpfPinnedMap) → Pairs R (reset_all ps) qs → Pairs (λ p q. R (reset p) q) ps qs
  after_reset [] [] none_left = none_left
  after_reset [] (q ∷ qs) a = elim a [ ]
  after_reset (p ∷ ps) [] a = elim a [ ]
  after_reset (p ∷ ps) (q ∷ qs) (both a rest) = both a (after_reset ps qs rest)
