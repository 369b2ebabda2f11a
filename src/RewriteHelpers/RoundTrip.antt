-- ===== src/RewriteHelpers/RoundTrip.antt =====
-- vlan_tag_push and vlan_tag_pop undo each other.
use mathlib.Core.Path.{fun_ext}
use syncookie_xdp.Prelude.{
  ℕ, ◌%◌, ◌^◌, ◌≤◌, ◌≡◌, ◌⊎◌, inl, inr, arith, false, ltb, Bool-cases, ap₂, ◌∙◌,
}
use syncookie_xdp.Prelude.Int.{pos, is_pos}
use syncookie_xdp.Packet.{Endian, IsBytes}
use syncookie_xdp.Machine.{State, ok}
use syncookie_xdp.RewriteHelpers.{AdjustHead, minus_one, vlan_tag_pop, vlan_tag_push}
use syncookie_xdp.RewriteHelpers.Tags.{
  IsAdjust, IsTagged, IsUntagged, vlan_tag_push-IsTagged, vlan_tag_pop-IsUntagged,
}

State-eq : {T : Type 0} (s t : State T) → s.len ≡ t.len → s.mem ≡ t.mem → s.table ≡ t.table → s ≡ t
State-eq s t p q r = λ i. record { len = p i; mem = q i; table = r i }

module _ {T : Type 0} (e : Endian) (adjust_head : AdjustHead T)
    (kernel : IsAdjust adjust_head) where
  untagged_tagged : (vlid : ℕ) (s s1 s2 : State T) → IsTagged vlid s s1 → IsUntagged s1 s2 → s2 ≡ s
  untagged_tagged vlid s s1 s2 on off =
      State-eq s2 s (let a = on.len in let b = off.len in omega arith)
        (fun_ext λ a. elim (Bool-cases (ltb a 12)) [
          | inl low ↦ off.addresses a (ground arith) ∙ on.addresses a (ground arith)
          | inr high ↦ off.rest a (ground arith) ∙ on.rest a (ground arith)
        ])
        (off.table ∙ on.table)

  -- What vlan_tag_pop finds on a packet that was tagged.
  pub pop_tagged :
      (vlid : ℕ) (s s1 : State T)
      → 14 ≤ s.len
      → IsTagged vlid s s1
      → ((vlan_tag_pop e adjust_head 0 s1 ≡ ok minus_one s1)
          × (is_pos (adjust_head (pos 4) s1).0 0 ≡ false))
        ⊎ (vlan_tag_pop e adjust_head 0 s1 ≡ ok (pos (vlid % 2 ^ 16)) s)
  pop_tagged vlid s s1 h on =
      elim (vlan_tag_pop-IsUntagged e adjust_head kernel s1 (let l = on.len in omega arith) on.bytes
        (inl on.type)) [
          | inl refused ↦ inl refused
          | inr (s2, (popped, off)) ↦ inr (
              popped
              ∙ ap₂ (λ (v : ℕ) (t : State T). ok (pos v) t) on.tag
                  (untagged_tagged vlid s s1 s2 on off))
        ]

  -- A tag that was pushed is popped: on a packet with an Ethernet header, vlan_tag_push gives -1 and
  -- the packet is as it was, or 0, and then vlan_tag_pop gives -1 and leaves the tagged packet, or
  -- it gives the tag's 16 bits, with the packet as it was at first. This is for a kernel that moves
  -- the start of a packet as it documents.
  pub vlan_tag_pop-vlan_tag_push :
      (s : State T) (vlid : ℕ)
      → 14 ≤ s.len
      → IsBytes s.mem
      → (vlan_tag_push e adjust_head 0 vlid s ≡ ok minus_one s)
        ⊎ ((s1 : State T) × ((vlan_tag_push e adjust_head 0 vlid s ≡ ok (pos 0) s1)
              × ((vlan_tag_pop e adjust_head 0 s1 ≡ ok minus_one s1)
                  ⊎ (vlan_tag_pop e adjust_head 0 s1 ≡ ok (pos (vlid % 2 ^ 16)) s))))
  vlan_tag_pop-vlan_tag_push s vlid h bytes =
      elim (vlan_tag_push-IsTagged e adjust_head kernel s vlid h bytes) [
        | inl refused ↦ inl refused
        | inr (s1, (pushed, on)) ↦ inr (
          s1,
          (
            pushed,
            elim (pop_tagged vlid s s1 h on) [
              | inl (refused, failed) ↦ inl refused
              | inr popped ↦ inr popped
            ],
          ),
        )
      ]
