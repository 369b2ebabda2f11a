-- ===== src/RewriteHelpers/Tags.antt =====
-- A VLAN tag that vlan_tag_push puts on is the one that vlan_tag_pop takes off.
use syncookie_xdp.Prelude.{
  ℕ, ◌+◌, ◌%◌, ◌^◌, ◌≤◌, ◌<◌, ◌≡◌, ◌⊎◌, inl, inr, refl, arith, ltb, le→leb, if◌then◌else◌, ap, ◌∙◌,
  true, false, not,
}
use syncookie_xdp.Prelude.Int.{ℤ, pos, negsuc, is_pos}
use syncookie_xdp.Packet.{Endian, big, Mem, IsBytes, get16, get_bytes}
use syncookie_xdp.Machine.{State, ok, and_then}
use syncookie_xdp.ParsingHelpers.{swap16, proto_is_vlan, IsVlan, proto_is_vlan-IsVlan, swap16-get16}
use syncookie_xdp.RewriteHelpers.{
  AdjustHead, adjust, minus_one, eth_p_8021q, put_header, vlan_tag_pop, put_tag, vlan_tag_push,
}
use syncookie_xdp.RewriteHelpers.Tagged.{
  tagged, tagged-addresses, tagged-type, tagged-tag, tagged-rest, tagged-IsBytes, untagged,
  untagged-addresses, untagged-rest,
}

-- The start of the packet is four bytes earlier, or later; the bytes stay where they are.
pub record IsGrown {T : Type 0} (s s' : State T) : Type 0 where
  pub len : s'.len ≡ s.len + 4
  pub table : s'.table ≡ s.table
  pub kept : (a : ℕ) → s'.mem (a + 4) ≡ s.mem a
  pub bytes : IsBytes s.mem → IsBytes s'.mem

pub record IsShrunk {T : Type 0} (s s' : State T) : Type 0 where
  pub len : s'.len + 4 ≡ s.len
  pub table : s'.table ≡ s.table
  pub kept : (a : ℕ) → s'.mem a ≡ s.mem (a + 4)

-- What the kernel documents: the start is moved and the code is 0, or it is another and nothing has
-- changed.
pub record IsAdjust {T : Type 0} (adjust_head : AdjustHead T) : Type 0 where
  pub grow-cases :
      (s : State T)
      → (((adjust_head (negsuc 3) s).0 ≡ pos 0) × IsGrown s (adjust_head (negsuc 3) s).1)
        ⊎ ((is_pos (adjust_head (negsuc 3) s).0 0 ≡ false) × ((adjust_head (negsuc 3) s).1 ≡ s))
  pub shrink-cases :
      (s : State T)
      → (((adjust_head (pos 4) s).0 ≡ pos 0) × IsShrunk s (adjust_head (pos 4) s).1)
        ⊎ ((is_pos (adjust_head (pos 4) s).0 0 ≡ false) × ((adjust_head (pos 4) s).1 ≡ s))

-- The packet with a tag behind the two addresses.
pub record IsTagged {T : Type 0} (vlid : ℕ) (s s' : State T) : Type 0 where
  pub len : s'.len ≡ s.len + 4
  pub table : s'.table ≡ s.table
  pub addresses : (a : ℕ) → a < 12 → s'.mem a ≡ s.mem a
  pub type : get16 big s'.mem 12 ≡ eth_p_8021q
  pub tag : get16 big s'.mem 14 ≡ vlid % 2 ^ 16
  pub rest : (a : ℕ) → 12 ≤ a → s'.mem (a + 4) ≡ s.mem a
  pub bytes : IsBytes s'.mem

module _ {T : Type 0} (e : Endian) (adjust_head : AdjustHead T) where
  put_tag-eq :
      (source : Mem) (s : State T) (vlid : ℕ)
      → 18 ≤ s.len
      → put_tag e adjust_head (get_bytes source 0 14) vlid s
        ≡ ok (pos 0) (record s { mem = tagged e source s.mem vlid })
  unfolding put_tag
  put_tag-eq source s vlid h =
      let header : ltb s.len 14 ≡ false = ground arith in
      let tag : ltb s.len 18 ≡ false = ground arith in
      let at14 = le→leb 14 s.len (omega arith) in
      let at16 = le→leb 16 s.len (omega arith) in let at18 = le→leb 18 s.len h in ground arith

  pushed-IsTagged :
      (s s1 : State T) (vlid : ℕ)
      → IsBytes s.mem
      → IsGrown s s1
      → IsTagged vlid s (record s1 { mem = tagged e s.mem s1.mem vlid })
  pushed-IsTagged s s1 vlid bytes grown =
      let new = grown.bytes bytes in
      record {
        len = grown.len;
        table = grown.table;
        addresses = tagged-addresses e s.mem bytes s1.mem new vlid;
        type = tagged-type e s.mem bytes s1.mem new vlid;
        tag = tagged-tag e s.mem bytes s1.mem new vlid;
        rest = tagged-rest e s.mem bytes s1.mem new vlid grown.kept;
        bytes = tagged-IsBytes e s.mem bytes s1.mem new vlid;
      }

  -- On a packet with an Ethernet header, vlan_tag_push gives -1 and has changed nothing, or 0 with
  -- the tag put in.
  pub vlan_tag_push-IsTagged :
      IsAdjust adjust_head
      → (s : State T) (vlid : ℕ) → 14 ≤ s.len
      → IsBytes s.mem
      → (vlan_tag_push e adjust_head 0 vlid s ≡ ok minus_one s)
        ⊎ ((s' : State T) × ((vlan_tag_push e adjust_head 0 vlid s ≡ ok (pos 0) s')
              × IsTagged vlid s s'))
  unfolding vlan_tag_push
  vlan_tag_push-IsTagged kernel s vlid h bytes =
      let room = le→leb 14 s.len h in
      elim (kernel.grow-cases s) [
        | inr (failed, same) ↦ inl (rw room (rw failed (ap (ok minus_one) same)))
        | inl (fine, grown) ↦ inr (
          record (adjust_head (negsuc 3) s).1 {
            mem = tagged e s.mem (adjust_head (negsuc 3) s).1.mem vlid;
          },
          (
            rw room (
                rw (ap (λ (code : ℤ). is_pos code 0) fine) (
                  put_tag-eq s.mem (adjust_head (negsuc 3) s).1 vlid
                    (let l = grown.len in omega arith))),
            pushed-IsTagged s (adjust_head (negsuc 3) s).1 vlid bytes grown,
          ),
        )
      ]

-- The packet without the tag behind the two addresses.
pub record IsUntagged {T : Type 0} (s s' : State T) : Type 0 where
  pub len : s'.len + 4 ≡ s.len
  pub table : s'.table ≡ s.table
  pub addresses : (a : ℕ) → a < 12 → s'.mem a ≡ s.mem a
  pub rest : (a : ℕ) → 12 ≤ a → s'.mem a ≡ s.mem (a + 4)

module _ {T : Type 0} (e : Endian) (adjust_head : AdjustHead T) where
  put_header-eq :
      (source : Mem) (s : State T) (h_proto vlid : ℕ)
      → 14 ≤ s.len
      → put_header e adjust_head (get_bytes source 0 14) h_proto vlid s
        ≡ ok (pos vlid) (record s { mem = untagged e source s.mem h_proto })
  unfolding put_header
  put_header-eq source s h_proto vlid h =
      let header : ltb s.len 14 ≡ false = ground arith in
      let room = le→leb 14 s.len h in ground arith

  -- Up to the call that moves the start.
  pop_start :
      (s : State T)
      → 18 ≤ s.len
      → proto_is_vlan e (get16 e s.mem 12) ≡ true
      → vlan_tag_pop e adjust_head 0 s
        ≡ and_then (adjust e adjust_head (pos 4) s) (λ err.
          if not (is_pos err 0)
          then ok minus_one
          else put_header e adjust_head
              (get_bytes s.mem 0 14)
              (get16 e s.mem 16)
              (swap16 e (get16 e s.mem 14)))
  unfolding vlan_tag_pop
  pop_start s h is_vlan =
      let room14 = le→leb 14 s.len (omega arith) in
      let room16 = le→leb 16 s.len (omega arith) in
      let room18 = le→leb 18 s.len h in
      let fits : ltb s.len 18 ≡ false = ground arith in
      rw room14 (rw is_vlan (rw fits (rw room16 (rw room18 (rw room14 refl)))))

  popped-IsUntagged :
      (s s1 : State T)
      → IsBytes s.mem
      → IsShrunk s s1
      → IsUntagged s (record s1 { mem = untagged e s.mem s1.mem (get16 e s.mem 16) })
  popped-IsUntagged s s1 bytes shrunk = record {
    len = shrunk.len;
    table = shrunk.table;
    addresses = untagged-addresses e s.mem bytes s1.mem;
    rest = untagged-rest e s.mem bytes s1.mem shrunk.kept;
  }

  -- On a packet with a VLAN tag, vlan_tag_pop gives -1 and has changed nothing, where the kernel has
  -- refused; or the tag's number in the order of the host, with the tag taken out.
  pub vlan_tag_pop-IsUntagged :
      IsAdjust adjust_head
      → (s : State T) → 18 ≤ s.len
      → IsBytes s.mem
      → IsVlan s.mem 12
      → ((vlan_tag_pop e adjust_head 0 s ≡ ok minus_one s)
          × (is_pos (adjust_head (pos 4) s).0 0 ≡ false))
        ⊎ ((s' : State T) × ((vlan_tag_pop e adjust_head 0 s ≡ ok (pos (get16 big s.mem 14)) s')
              × IsUntagged s s'))
  vlan_tag_pop-IsUntagged kernel s h bytes vlan =
      let is_vlan = (proto_is_vlan-IsVlan e s.mem 12 bytes).1 vlan in
      elim (kernel.shrink-cases s) [
        | inr (failed, same) ↦
            inl (pop_start s h is_vlan ∙ rw failed (ap (ok minus_one) same), failed)
        | inl (fine, shrunk) ↦ inr (
          record (adjust_head (pos 4) s).1 {
            mem = untagged e s.mem (adjust_head (pos 4) s).1.mem (get16 e s.mem 16);
          },
          (
            pop_start s h is_vlan
                ∙ rw (ap (λ (code : ℤ). is_pos code 0) fine) (
                    put_header-eq s.mem (adjust_head (pos 4) s).1 (get16 e s.mem 16)
                      (swap16 e (get16 e s.mem 14)) (let l = shrunk.len in omega arith)
                    ∙ ap
                        (λ (tci : ℕ). ok (pos tci) (record (adjust_head (pos 4) s).1 {
                          mem = untagged e s.mem (adjust_head (pos 4) s).1.mem (get16 e s.mem 16);
                        }))
                        (swap16-get16 e s.mem 14 bytes)),
            popped-IsUntagged s (adjust_head (pos 4) s).1 bytes shrunk,
          ),
        )
      ]
