-- ===== src/Syncookie/Traffic/Table.antt =====
-- What a stream of frames does to the table of connections.
use mathlib.Core.List.{Sublistᴰ}
use mathlib.Core.List.Sublistᴰ.{slnil, cons, cons-cons}
use syncookie_xdp.Prelude.{◌≡◌, ◌⊎◌, inl, inr, refl, ap, subst, List, [], ◌∷◌, some, ◌∙◌, arith}
use syncookie_xdp.Packet.{Endian}
use syncookie_xdp.Machine.{KernelMap, State, Run, ok, fault}
use syncookie_xdp.Controller.{XdpAction, insert, bpf_any}
use syncookie_xdp.Controller.Cases.{IsCookieAck}
use syncookie_xdp.Syncookie.{syncookie_fn}
use syncookie_xdp.Syncookie.Outcome.{syncookie_fn-fault_iff}
use syncookie_xdp.Syncookie.Replies.{syncookie_fn-table}
use syncookie_xdp.Syncookie.Traffic.{Frame, Verdict, arrived, handle_frames, IsWhole}

abbrev pub AllFrames : (Frame → Type 0) → List Frame → Type 0
AllFrames P [] = Unit
AllFrames P (f ∷ fs) = P f × AllFrames P fs

Run-cases : {T A : Type 0} (r : Run T A) → (r ≡ fault) ⊎ ((a : A) × (s : State T) × (r ≡ ok a s))
Run-cases fault = inl refl
Run-cases (ok a s) = inr (a, s, refl)

module _ (M : KernelMap) (e : Endian) where
  -- The table after the updates for some frames.
  abbrev pub updates : List Frame → M.Table → M.Table
  updates [] t = t
  updates (f ∷ fs) t = updates fs (M.update t f.slot insert bpf_any)

  -- One frame: the program returns, and updates the table only for a cookie's ACK.
  pub handle-frame :
      (f : Frame) (t : M.Table)
      → IsWhole e f
      → (action : XdpAction) × (s : State M.Table) × (syncookie_fn M e f.slot (arrived M e f t)
          ≡ ok action s)
        × ((s.table ≡ t) ⊎ ((s.table ≡ M.update t f.slot insert bpf_any) × IsCookieAck e f.mem))
  handle-frame f t whole = elim (Run-cases (syncookie_fn M e f.slot (arrived M e f t))) [
    | inl faulted ↦
        let short = (syncookie_fn-fault_iff M e f.slot (arrived M e f t) whole.bytes).0 faulted in
        let fits = whole.complete (record {
          fits = short.0.fits;
          ether_type = short.0.ether_type;
          protocol = short.0.protocol;
        }) in
        absurd (omega arith)
    | inr (action, s, run) ↦ (
      action,
      s,
      run,
      elim (syncookie_fn-table M e f.slot (arrived M e f t) whole.bytes run) [
        | inl same ↦ inl same
        | inr changed ↦ inr (changed.0, changed.3)
      ],
    )
  ]

  pub handled :
      (f : Frame) (fs : List Frame) (t t' : M.Table) (action : XdpAction) (s : State M.Table)
      (verdicts : List Verdict)
      → syncookie_fn M e f.slot (arrived M e f t) ≡ ok action s
      → handle_frames M e fs s.table ≡ some (verdicts, t')
      → handle_frames M e (f ∷ fs) t ≡ some (record { action = action; mem = s.mem } ∷ verdicts, t')
  unfolding handle_frames
  handled f fs t t' action s verdicts run rest = rw (run, handle_frames) (rw rest refl)

  -- The frames of a stream that bring a cookie back.
  abbrev IsLog : List Frame → M.Table → List Frame → M.Table → Type 0
  IsLog fs t acks t' =
      Sublistᴰ acks fs × AllFrames (λ f. IsCookieAck e f.mem) acks × (t' ≡ updates acks t)

  -- On any stream of frames that are no truncated TCP packets, the program returns for each, and the
  -- table behind them is the one before with one update for each of some of the frames, in their order,
  -- under the bytes that stand at `&connection` in its call: ACKs that acknowledge the cookie of
  -- their connection.
  pub handle_frames-updates :
      (fs : List Frame) (t : M.Table)
      → AllFrames (IsWhole e) fs
      → (verdicts : List Verdict) × (acks : List Frame) × (handle_frames M e fs t
          ≡ some (verdicts, updates acks t))
        × Sublistᴰ acks fs
        × AllFrames (λ f. IsCookieAck e f.mem) acks
  unfolding handle_frames
  handle_frames-updates [] t whole = ([], [], refl, slnil, tt)
  handle_frames-updates (f ∷ fs) t (first, others) =
      let (action, s, run, change) = handle-frame f t first in
      let (verdicts, acks, rest, within, are_acks) = handle_frames-updates fs s.table others in
      let here = handled f fs t (updates acks s.table) action s verdicts run rest in
      elim change [
        | inl same ↦ (
          record { action = action; mem = s.mem } ∷ verdicts,
          acks,
          here
              ∙ ap
                  (λ (u : M.Table).
                    some (record { action = action; mem = s.mem } ∷ verdicts, updates acks u))
                  same,
          cons within,
          are_acks,
        )
        | inr (updated, is_ack) ↦ (
          record { action = action; mem = s.mem } ∷ verdicts,
          f ∷ acks,
          here
              ∙ ap
                  (λ (u : M.Table).
                    some (record { action = action; mem = s.mem } ∷ verdicts, updates acks u))
                  updated,
          cons-cons refl within,
          (is_ack, are_acks),
        )
      ]

  no_acks :
      (fs acks : List Frame)
      → AllFrames (λ f. ¬ IsCookieAck e f.mem) fs
      → Sublistᴰ acks fs
      → AllFrames (λ f. IsCookieAck e f.mem) acks
      → acks ≡ []
  no_acks [] [] never slnil acks = refl
  no_acks [] (g ∷ acks) never within are_acks = elim within [ ]
  no_acks (f ∷ fs) acks (never, others) (cons within) are_acks =
      no_acks fs acks others within are_acks
  no_acks (f ∷ fs) (g ∷ acks) (never, others) (cons-cons same within) (is_ack, more) =
      absurd (never (subst (λ (h : Frame). IsCookieAck e h.mem) same is_ack))

  -- A flood of frames, of which none acknowledges the cookie of its connection, SYNs above all, leaves
  -- the table as it was: the program keeps nothing of them.
  pub handle_frames-flood :
      (fs : List Frame) (t : M.Table)
      → AllFrames (IsWhole e) fs
      → AllFrames (λ f. ¬ IsCookieAck e f.mem) fs
      → (verdicts : List Verdict) × (handle_frames M e fs t ≡ some (verdicts, t))
  handle_frames-flood fs t whole never =
      let (verdicts, acks, run, within, are_acks) = handle_frames-updates fs t whole in
      (
        verdicts,
        run
            ∙ ap (λ (gs : List Frame). some (verdicts, updates gs t))
                (no_acks fs acks never within are_acks),
      )
