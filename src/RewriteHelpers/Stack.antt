-- ===== src/RewriteHelpers/Stack.antt =====
-- Several VLAN tags put on one after another, and taken off again.
use syncookie_xdp.Prelude.{
  ℕ, zero, suc, ◌%◌, ◌^◌, ◌≤◌, ◌≡◌, inl, inr, refl, ap, sym, ◌∙◌, true, false, Option, none, some,
  Option-cases, List, [], ◌∷◌, ◌++◌, arith, length, if◌then◌else◌, none_ne_some, some_inj,
}
use syncookie_xdp.Prelude.Int.{ℤ, pos, negsuc, is_pos}
use syncookie_xdp.Packet.{Endian, IsBytes}
use syncookie_xdp.Machine.{State, ok, fault}
use syncookie_xdp.RewriteHelpers.{AdjustHead, vlan_tag_pop, vlan_tag_push}
use syncookie_xdp.RewriteHelpers.Tags.{IsAdjust, IsTagged, vlan_tag_push-IsTagged}
use syncookie_xdp.RewriteHelpers.RoundTrip.{pop_tagged}

-- What the kernel documents of a move towards the end: it succeeds as long as an Ethernet header is
-- left.
pub record IsRoomy {T : Type 0} (adjust_head : AdjustHead T) : Type 0 where
  pub gives : (s : State T) → 18 ≤ s.len → (adjust_head (pos 4) s).0 ≡ pos 0

module _ {T : Type 0} (e : Endian) (adjust_head : AdjustHead T) where
  -- The tags are pushed in the order of the list; `none` where one is refused.
  unfoldable pub push_all : List ℕ → State T → Option (State T)
  push_all [] s = some s
  push_all (vlid ∷ vlids) s = elim (vlan_tag_push e adjust_head 0 vlid s) [
    | fault ↦ none
    | ok code s1 ↦ let rest = push_all vlids s1 in if is_pos code 0 then rest else none
  ]

  unfoldable pub pop_one : State T → Option (ℕ × State T)
  pop_one s = elim (vlan_tag_pop e adjust_head 0 s) [
    | fault ↦ none
    | ok code s1 ↦ elim code [ pos vlid ↦ some (vlid, s1) | negsuc _ ↦ none ]
  ]

  -- The numbers of the tags that were popped, and the packet behind them; `none` where there is none.
  unfoldable pub pop_all : ℕ → State T → Option (List ℕ × State T)
  unfolding pop_one
  pop_all zero s = some ([], s)
  pop_all (suc n) s = elim (pop_one s) [
    | none ↦ none
    | some (vlid, s1) ↦ elim (pop_all n s1) [
      | none ↦ none
      | some (vlids, t) ↦ some (vlid ∷ vlids, t)
    ]
  ]

  -- The last tag that was pushed comes first.
  abbrev pub last_first : List ℕ → List ℕ
  last_first [] = []
  last_first (vlid ∷ vlids) = last_first vlids ++ (vlid % 2 ^ 16 ∷ [])

  -- A push that was not refused.
  pub push_all-cases :
      IsAdjust adjust_head
      → (vlid : ℕ) (vlids : List ℕ) (s t : State T) → 14 ≤ s.len
      → IsBytes s.mem
      → push_all (vlid ∷ vlids) s ≡ some t
      → (s1 : State T) × IsTagged vlid s s1 × (push_all vlids s1 ≡ some t)
  unfolding push_all
  push_all-cases kernel vlid vlids s t h bytes pushed =
      elim (vlan_tag_push-IsTagged e adjust_head kernel s vlid h bytes) [
        | inl refused ↦ absurd (none_ne_some (rw (refused, push_all) at pushed))
        | inr (s1, (here, on)) ↦ (s1, on, rw (here, push_all) at pushed)
      ]

  -- One more tag behind those that were popped.
  pop_all-append :
      (n : ℕ) (s t u : State T) (vlids : List ℕ) (vlid : ℕ)
      → pop_all n s ≡ some (vlids, t)
      → pop_one t ≡ some (vlid, u)
      → pop_all (suc n) s ≡ some (vlids ++ (vlid ∷ []), u)
  unfolding pop_all
  pop_all-append zero s t u vlids vlid all popped =
      let same : ([], s) ≡ (vlids, t) = some_inj all in
      let first : pop_one s ≡ some (vlid, u) =
        ap (λ (x : List ℕ × State T). pop_one x.1) same ∙ popped in
      rw (first, pop_all) (ap (λ (x : List ℕ × State T). some (x.0 ++ (vlid ∷ []), u)) same)
  pop_all-append (suc n) s t u vlids vlid all popped = elim (Option-cases (pop_one s)) [
    | inl empty ↦ absurd (none_ne_some (rw (empty, pop_all) at all))
    | inr (first, e) ↦ elim (Option-cases (pop_all n first.1)) [
      | inl empty ↦ absurd (none_ne_some (rw empty at (rw (e, pop_all) at all)))
      | inr (rest, e') ↦
          let same : (first.0 ∷ rest.0, rest.1) ≡ (vlids, t) =
            some_inj (rw e' at (rw (e, pop_all) at all)) in
          let last =
            pop_all-append n first.1 rest.1 u rest.0 vlid e'
              (ap (λ (x : List ℕ × State T). pop_one x.1) same ∙ popped) in
          rw (e, pop_all)
            (rw last (ap (λ (x : List ℕ × State T). some (x.0 ++ (vlid ∷ []), u)) same))
    ]
  ]

  pop_pushed :
      IsAdjust adjust_head
      → IsRoomy adjust_head
      → (vlid : ℕ) (s s1 : State T) → 14 ≤ s.len
      → IsTagged vlid s s1
      → pop_one s1 ≡ some (vlid % 2 ^ 16, s)
  unfolding pop_one
  pop_pushed kernel roomy vlid s s1 h on = elim (pop_tagged e adjust_head kernel vlid s s1 h on) [
    | inr popped ↦ rw (popped, pop_one) refl
    | inl (refused, failed) ↦
        let fine = ap (λ (c : ℤ). is_pos c 0) (roomy.gives s1 (let l = on.len in omega arith)) in
        let no : true ≡ false = sym fine ∙ failed in cc
  ]

  -- VLAN tags are a stack: tags that were all pushed are popped again, the last one first, with their 16
  -- bits, and the packet is as it was. This is for a packet with an Ethernet header, and for a kernel
  -- that moves its start as it documents.
  pub pop_all-push_all :
      IsAdjust adjust_head
      → IsRoomy adjust_head
      → (vlids : List ℕ) (s t : State T) → 14 ≤ s.len
      → IsBytes s.mem
      → push_all vlids s ≡ some t
      → pop_all (length vlids) t ≡ some (last_first vlids, s)
  unfolding push_all pop_all
  pop_all-push_all kernel roomy [] s t h bytes pushed =
      ap (λ u. some ([], u)) (sym (some_inj pushed))
  pop_all-push_all kernel roomy (vlid ∷ vlids) s t h bytes pushed =
      let (s1, on, rest) = push_all-cases kernel vlid vlids s t h bytes pushed in
      let all =
        pop_all-push_all kernel roomy vlids s1 t (let l = on.len in omega arith) on.bytes rest in
      pop_all-append (length vlids) t s1 s (last_first vlids) (vlid % 2 ^ 16) all
        (pop_pushed kernel roomy vlid s s1 h on)
