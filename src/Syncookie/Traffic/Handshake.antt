-- ===== src/Syncookie/Traffic/Handshake.antt =====
-- A handshake with any other frames between the SYN and the ACK.
use syncookie_xdp.Prelude.{
  ℕ, ◌+◌, ◌%◌, ◌^◌, ◌≤◌, ◌≡◌, ◌≢◌, ◌⊎◌, inl, inr, List, none, some, Option-cases, none_ne_some, sym,
  ◌∙◌, arith,
}
use syncookie_xdp.Packet.{Endian, Mem}
use syncookie_xdp.Machine.{KernelMap, State, ok}
use syncookie_xdp.Controller.{xdp_pass, xdp_tx, insert, bpf_any}
use syncookie_xdp.Controller.Layout.{headers_size, IsBytes, connection, seq_no, ack_no}
use syncookie_xdp.Controller.Decision.{known}
use syncookie_xdp.Controller.Cases.{IsSyn}
use syncookie_xdp.Controller.Ack.{IsAck}
use syncookie_xdp.Syncookie.{syncookie_fn}
use syncookie_xdp.Syncookie.Entry.{IsTcp}
use syncookie_xdp.Syncookie.Outcome.{syncookie_fn-pass_iff}
use syncookie_xdp.Syncookie.Handshake.{IsNew, IsAckOnly, answer-cookie, number-accept}
use syncookie_xdp.Syncookie.Traffic.{Frame, Verdict, arrived, handle_frames, IsWhole}
use syncookie_xdp.Syncookie.Traffic.Table.{AllFrames, updates, handle_frames-updates}

module _ (M : KernelMap) (e : Endian) where
  -- What the client sends when it has the reply: an ACK of its connection that acknowledges the
  -- number of the reply, as the host reads the numbers.
  pub record IsAnswerTo (s s₁ : State M.Table) (f : Frame) : Type 0 where
    pub bytes : IsBytes f.mem
    pub tcp : IsTcp e (record { len = f.len; mem = f.mem; table = tt })
    pub fits : headers_size ≤ f.len
    pub flags : IsAckOnly e f.mem
    pub same : connection e f.mem ≡ connection e s.mem
    pub number : ack_no e f.mem ≡ (seq_no e s₁.mem + 1) % 2 ^ 32

  -- The frame is let in: it is accepted, with the table updated; or its connection is in the table,
  -- and it is passed on.
  pub record IsAccepted (f : Frame) (t : M.Table) : Type 0 where
    pub reply : Mem
    pub unknown : known M e (arrived M e f t) ≡ none
    pub returned :
        syncookie_fn M e f.slot (arrived M e f t)
        ≡ ok xdp_tx (record { len = f.len; mem = reply; table = M.update t f.slot insert bpf_any })
    pub is : IsAck e f.mem reply

  pub record IsPassed (f : Frame) (t : M.Table) : Type 0 where
    pub there : known M e (arrived M e f t) ≢ none
    pub returned : syncookie_fn M e f.slot (arrived M e f t) ≡ ok xdp_pass (arrived M e f t)

  let_in :
      (slot : List ℕ) (s s₁ : State M.Table) (f : Frame) (t : M.Table)
      → IsNew M e s
      → IsSyn e s.mem
      → syncookie_fn M e slot s ≡ ok xdp_tx s₁
      → IsAnswerTo s s₁ f
      → IsAccepted f t ⊎ IsPassed f t
  let_in slot s s₁ f t new syn run answer =
      let tcp : IsTcp e (arrived M e f t) = record {
        fits = answer.tcp.fits;
        ether_type = answer.tcp.ether_type;
        protocol = answer.tcp.protocol;
      } in
      let carried = answer-cookie M e slot s s₁ new syn run in
      elim (Option-cases (known M e (arrived M e f t))) [
        | inl unknown ↦
            let (reply, returned, is) =
              number-accept M f.slot e (arrived M e f t) (connection e s.mem)
                (record { bytes = answer.bytes; tcp = tcp; fits = answer.fits; unknown = unknown })
                answer.flags answer.same (omega arith) in
            inl (record { reply = reply; unknown = unknown; returned = returned; is = is })
        | inr (v, found) ↦
            let there : known M e (arrived M e f t) ≢ none =
              λ missing. none_ne_some (sym missing ∙ found) in
            inr (record {
              there = there;
              returned =
                  (syncookie_fn-pass_iff M e f.slot (arrived M e f t) answer.bytes).1
                    (inr (answer.fits, there));
            })
      ]

  -- Once a SYN of a connection that is not in the table was answered, the client that acknowledges the
  -- number of the reply is let in, whatever comes between: the program handles any stream of frames
  -- that are no truncated TCP packets, and then accepts the client's ACK, or passes it on where the
  -- connection has come into the table meanwhile. It is never dropped, though the table may hold
  -- nothing of the SYN.
  pub handshake-let_in :
      (slot : List ℕ) (s s₁ : State M.Table) (between : List Frame) (f : Frame)
      → IsNew M e s
      → IsSyn e s.mem
      → syncookie_fn M e slot s ≡ ok xdp_tx s₁
      → AllFrames (IsWhole e) between
      → IsAnswerTo s s₁ f
      → (verdicts : List Verdict) × (t : M.Table) × (handle_frames M e between s₁.table
          ≡ some (verdicts, t))
        × (IsAccepted f t ⊎ IsPassed f t)
  handshake-let_in slot s s₁ between f new syn run whole answer =
      let (verdicts, acks, handled, within, are_acks) =
        handle_frames-updates M e between s₁.table whole in
      let t = updates M e acks s₁.table in
      (verdicts, t, handled, let_in slot s s₁ f t new syn run answer)
