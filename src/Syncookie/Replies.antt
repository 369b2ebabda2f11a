-- ===== src/Syncookie/Replies.antt =====
-- The two replies of the entry program, what no packet can change, and when the table changes.
use syncookie_xdp.Prelude.{ℕ, ◌≤◌, ◌<◌, ◌≡◌, ◌⊎◌, inl, inr, refl, sym, ap, subst, List, none}
use syncookie_xdp.Packet.{Endian, Mem}
use syncookie_xdp.Machine.{KernelMap, State, ok}
use syncookie_xdp.Controller.{XdpAction, xdp_tx, cookie_of, insert, bpf_any}
use syncookie_xdp.Controller.Layout.{headers_size, IsBytes, connection}
use syncookie_xdp.Controller.Reply.{syn_reply, ack_reply, syn_reply-IsBytes, ack_reply-IsBytes}
use syncookie_xdp.Controller.Cookie.{connection-IsConnection, cookie_of-lt}
use syncookie_xdp.Controller.Decision.{decide, known}
use syncookie_xdp.Controller.Cases.{
  Decision-cases, IsSyn, IsCookieAck, decide-answer_iff, decide-accept_iff,
}
use syncookie_xdp.Controller.Syn.{IsSynAck, syn_reply-IsSynAck}
use syncookie_xdp.Controller.Ack.{IsAck, ack_reply-IsAck}
use syncookie_xdp.Syncookie.{syncookie_fn}
use syncookie_xdp.Syncookie.Entry.{IsTcp, IsTcp-or, fits-or, entry-short, entry-other}
use syncookie_xdp.Syncookie.Outcome.{syncookie_fn-decide}

module _ (M : KernelMap) (e : Endian) (slot : List ℕ) (s : State M.Table) (bytes : IsBytes s.mem)
    (tcp : IsTcp e s) (fits : headers_size ≤ s.len) (unknown : known M e s ≡ none) where
  -- A SYN of a connection that is not in the table, in a complete TCP packet, is sent back as a
  -- SYN-ACK that carries the cookie of the connection; the table stays.
  pub syncookie_fn-answer :
      IsSyn e s.mem
      → (m' : Mem) × (syncookie_fn M e slot s ≡ ok xdp_tx (record s { mem = m' }))
        × IsSynAck e (cookie_of (connection e s.mem)) s.mem m'
  syncookie_fn-answer syn =
      let c = connection e s.mem in
      let small = cookie_of-lt c (connection-IsConnection e s.mem bytes) in
      (
        syn_reply e (cookie_of c) s.mem,
        cc (
          syncookie_fn-decide M e slot s bytes tcp fits,
          (decide-answer_iff e s.mem (known M e s)).1 (unknown, syn),
        ),
        syn_reply-IsSynAck s.mem bytes (cookie_of c) small e,
      )

  -- An ACK of a connection that is not in the table, in a complete TCP packet, that acknowledges the
  -- cookie of the connection is sent back as an ACK, and the table is updated under the bytes at
  -- `&connection`.
  pub syncookie_fn-accept :
      IsCookieAck e s.mem
      → (m' : Mem) × (syncookie_fn M e slot s
          ≡ ok xdp_tx (record s { mem = m'; table = M.update s.table slot insert bpf_any }))
        × IsAck e s.mem m'
  syncookie_fn-accept ack = (
    ack_reply e s.mem,
    cc (
      syncookie_fn-decide M e slot s bytes tcp fits,
      (decide-accept_iff e s.mem (known M e s)).1 (unknown, ack),
    ),
    ack_reply-IsAck s.mem bytes e,
  )

-- What every run leaves alone.
pub record IsPreserved {T : Type 0} (s s' : State T) : Type 0 where
  pub len : s'.len ≡ s.len
  pub bytes : IsBytes s'.mem
  pub rest : (a : ℕ) → (6 ≤ a) × (a < 26) ⊎ ((a ≡ 46) ⊎ (48 ≤ a)) → s'.mem a ≡ s.mem a

-- The states that the two replies leave.
module _ (M : KernelMap) (e : Endian) (slot : List ℕ) (s : State M.Table) where
  abbrev pub answered : State M.Table
  answered = record s { mem = syn_reply e (cookie_of (connection e s.mem)) s.mem }

  abbrev pub accepted : State M.Table
  accepted = record s { mem = ack_reply e s.mem; table = M.update s.table slot insert bpf_any }

  -- A change of state comes from one of the two replies.
  pub changed :
      {a : XdpAction} {s' : State M.Table}
      → IsBytes s.mem
      → syncookie_fn M e slot s ≡ ok a s'
      → (s' ≡ s)
        ⊎ ((s' ≡ answered)
            ⊎ ((s' ≡ accepted) × IsTcp e s × (known M e s ≡ none) × IsCookieAck e s.mem))
  changed bytes h = elim (IsTcp-or e s) [
    | inr other ↦ inl (cc (entry-other M e slot s other, h))
    | inl tcp ↦ elim (fits-or s) [
      | inr short ↦ cc (entry-short M e slot s tcp short, h)
      | inl fits ↦
          let d = decide (known M e s) e s.mem in
          let run = syncookie_fn-decide M e slot s bytes tcp fits in
          elim (Decision-cases d) [
            | inl p ↦ inl (cc (p, run, h))
            | inr (inl p) ↦ inl (cc (p, run, h))
            | inr (inr (inl p)) ↦ inr (inl (cc (p, run, h)))
            | inr (inr (inr p)) ↦
                let r = (decide-accept_iff e s.mem (known M e s)).0 p in
                inr (inr (cc (p, run, h), tcp, r.0, r.1))
          ]
    ]
  ]

  -- The table changes only by the one update that follows an ACK of a connection that is not in
  -- it, and which acknowledges the cookie of that connection.
  pub syncookie_fn-table :
      {a : XdpAction} {s' : State M.Table}
      → IsBytes s.mem
      → syncookie_fn M e slot s ≡ ok a s'
      → (s'.table ≡ s.table)
        ⊎ ((s'.table ≡ M.update s.table slot insert bpf_any)
            × IsTcp e s
            × (known M e s ≡ none)
            × IsCookieAck e s.mem)
  syncookie_fn-table bytes h = elim (changed bytes h) [
    | inl p ↦ inl (ap (λ (t : State M.Table). t.table) p)
    | inr (inl p) ↦ inl (ap (λ (t : State M.Table). t.table) p)
    | inr (inr p) ↦ inr (ap (λ (t : State M.Table). t.table) p.0, p.1, p.2, p.3)
  ]

  -- Whatever the packet, its length stays, its memory holds bytes again, and what stands outside
  -- the destination MAC address, the IP addresses, the ports, the two TCP numbers and the byte of
  -- flags is not written. So the payload, both checksums and the source MAC address stay.
  pub syncookie_fn-IsPreserved :
      {a : XdpAction} {s' : State M.Table}
      → IsBytes s.mem
      → syncookie_fn M e slot s ≡ ok a s'
      → IsPreserved s s'
  syncookie_fn-IsPreserved {s'} bytes h = elim (changed bytes h) [
    | inl p ↦
        subst (IsPreserved s) (sym p) (record { len = refl; bytes = bytes; rest = λ a out. refl })
    | inr (inl p) ↦
        let c = connection e s.mem in
        let small = cookie_of-lt c (connection-IsConnection e s.mem bytes) in
        let is = syn_reply-IsSynAck s.mem bytes (cookie_of c) small e in
        subst (IsPreserved s) (sym p) (record {
          len = refl;
          bytes = syn_reply-IsBytes s.mem bytes e (cookie_of c);
          rest = is.returned.rest;
        })
    | inr (inr p) ↦
        let is = ack_reply-IsAck s.mem bytes e in
        subst (IsPreserved s) (sym p.0)
          (record { len = refl; bytes = ack_reply-IsBytes s.mem bytes e; rest = is.returned.rest })
  ]
