-- ===== src/Syncookie/Traffic/Known.antt =====
-- What becomes of a connection that is in the table, and of one that never comes into it.
use syncookie_xdp.Prelude.{
  ℕ, ◌≡◌, ◌≢◌, inl, inr, refl, ap, sym, subst, List, [], ◌∷◌, none, some, ◌∙◌,
}
use syncookie_xdp.Packet.{Endian, Mem}
use syncookie_xdp.Machine.{KernelMap, ok}
use syncookie_xdp.Headers.{connection_bytes}
use syncookie_xdp.Controller.{xdp_drop, xdp_pass, xdp_tx, insert, bpf_any}
use syncookie_xdp.Controller.Layout.{connection}
use syncookie_xdp.Controller.Decision.{known}
use syncookie_xdp.Controller.Cases.{IsSyn, IsCookieAck}
use syncookie_xdp.Syncookie.{syncookie_fn}
use syncookie_xdp.Syncookie.Entry.{IsTcp, IsTcp-or}
use syncookie_xdp.Syncookie.Outcome.{syncookie_fn-pass_iff, syncookie_fn-drop_iff}
use syncookie_xdp.Syncookie.Replies.{syncookie_fn-accept}
use syncookie_xdp.Syncookie.Traffic.{Frame, Verdict, arrived, handle_frames, IsWhole}
use syncookie_xdp.Syncookie.Traffic.Table.{AllFrames, handle-frame, handled}

-- What the kernel documents of its maps: an update takes no other entry away.
pub record IsKeeping (M : KernelMap) : Type 0 where
  pub kept :
      (t : M.Table) (k k' : List ℕ) (value flags : ℕ)
      → M.lookup t k ≢ none
      → M.lookup (M.update t k' value flags) k ≢ none

module _ (M : KernelMap) (e : Endian) where
  arrived-IsTcp :
      (f : Frame) (t : M.Table)
      → IsTcp e (record { len = f.len; mem = f.mem; table = tt })
      → IsTcp e (arrived M e f t)
  arrived-IsTcp f t tcp = record {
    fits = tcp.fits;
    ether_type = tcp.ether_type;
    protocol = tcp.protocol;
  }

  -- A frame of a connection in the table is passed on.
  known-passed :
      (f : Frame) (t : M.Table)
      → IsWhole e f
      → known M e (arrived M e f t) ≢ none
      → syncookie_fn M e f.slot (arrived M e f t) ≡ ok xdp_pass (arrived M e f t)
  known-passed f t whole there =
      (syncookie_fn-pass_iff M e f.slot (arrived M e f t) whole.bytes).1
        (elim (IsTcp-or e (arrived M e f t)) [
          | inr other ↦ inl other
          | inl tcp ↦ inr (
            whole.complete
                (record { fits = tcp.fits; ether_type = tcp.ether_type; protocol = tcp.protocol }),
            there,
          )
        ])

  -- What every frame keeps of the table holds in the end.
  module _ (I : M.Table → Type 0) (Q : Frame → Type 0) (whole : (f : Frame) → Q f → IsWhole e f)
      (step : (f : Frame) (t : M.Table) → Q f → I t → I (M.update t f.slot insert bpf_any)) where
    pub handle_frames-keeps :
        (fs : List Frame) (t : M.Table)
        → AllFrames Q fs
        → I t
        → (verdicts : List Verdict) × (t' : M.Table) × (handle_frames M e fs t
            ≡ some (verdicts, t'))
          × I t'
    unfolding handle_frames
    handle_frames-keeps [] t all now = ([], t, refl, now)
    handle_frames-keeps (f ∷ fs) t (first, others) now =
        let (action, s, run, change) = handle-frame M e f t (whole f first) in
        let next : I s.table = elim change [
          | inl stays ↦ subst I (sym stays) now
          | inr (updated, is_ack) ↦ subst I (sym updated) (step f t first now)
        ] in
        let (verdicts, t', rest, end) = handle_frames-keeps fs s.table others next in
        (
          record { action = action; mem = s.mem } ∷ verdicts,
          t',
          handled M e f fs t t' action s verdicts run rest,
          end,
        )

  -- Once a connection is in the table, each frame of it is passed on as it came, behind any stream of
  -- frames that are no truncated TCP packets. This is for a map that keeps its entries.
  pub handle_frames-pass :
      IsKeeping M
      → (fs : List Frame) (t : M.Table) (f : Frame) → AllFrames (IsWhole e) fs
      → IsWhole e f
      → known M e (arrived M e f t) ≢ none
      → (verdicts : List Verdict) × (t' : M.Table) × (handle_frames M e fs t ≡ some (verdicts, t'))
        × (syncookie_fn M e f.slot (arrived M e f t') ≡ ok xdp_pass (arrived M e f t'))
  handle_frames-pass keeps fs t f all whole there =
      let k = connection_bytes e (connection e f.mem) in
      let (verdicts, t', handled, still) =
        handle_frames-keeps (λ u. M.lookup u k ≢ none) (IsWhole e) (λ g w. w)
          (λ g u w. keeps.kept u k g.slot insert bpf_any) fs t all there in
      (verdicts, t', handled, known-passed f t' whole still)

  -- An update under the bytes at `&connection` in the call has nothing to do with the key.
  pub record IsOtherKey (k : List ℕ) (f : Frame) : Type 0 where
    pub whole : IsWhole e f
    pub aside : (t : M.Table) → M.lookup (M.update t f.slot insert bpf_any) k ≡ M.lookup t k

  still_unknown :
      (k : List ℕ) (fs : List Frame) (t : M.Table)
      → AllFrames (IsOtherKey k) fs
      → M.lookup t k ≡ none
      → (verdicts : List Verdict) × (t' : M.Table) × (handle_frames M e fs t ≡ some (verdicts, t'))
        × (M.lookup t' k ≡ none)
  still_unknown k =
      handle_frames-keeps (λ u. M.lookup u k ≡ none) (IsOtherKey k) (λ g other. other.whole)
        (λ g u other missing. other.aside u ∙ missing)

  -- An ACK that acknowledges the cookie, and another segment of its connection, which is neither that
  -- nor a SYN.
  pub record IsFollowed (ack next : Frame) : Type 0 where
    pub tcp : IsTcp e (record { len = ack.len; mem = ack.mem; table = tt })
    pub brings : IsCookieAck e ack.mem
    pub next_tcp : IsTcp e (record { len = next.len; mem = next.mem; table = tt })
    pub same : connection e next.mem ≡ connection e ack.mem
    pub no_syn : ¬ IsSyn e next.mem
    pub no_ack : ¬ IsCookieAck e next.mem

  -- If the bytes at `&connection`, under which the table is updated, are never the key of a connection
  -- that is not in the table, then an ACK that acknowledges its cookie is accepted, and yet the next
  -- segments of that connection are dropped, unless they are SYNs or bring the cookie back again. This
  -- holds with any other such frames before the ACK, and between it and the segment.
  pub handle_frames-drop :
      (before between : List Frame) (ack next : Frame) (t : M.Table)
      → AllFrames (IsOtherKey (connection_bytes e (connection e ack.mem))) before
      → IsOtherKey (connection_bytes e (connection e ack.mem)) ack
      → AllFrames (IsOtherKey (connection_bytes e (connection e ack.mem))) between
      → IsWhole e next
      → IsFollowed ack next
      → known M e (arrived M e ack t) ≡ none
      → (v₁ v₂ : List Verdict) × (t₁ t₂ : M.Table) × (reply : Mem) × (handle_frames M e before t
          ≡ some (v₁, t₁))
        × (syncookie_fn M e ack.slot (arrived M e ack t₁)
            ≡ ok xdp_tx (record {
              len = ack.len;
              mem = reply;
              table = M.update t₁ ack.slot insert bpf_any;
            }))
        × (handle_frames M e between (M.update t₁ ack.slot insert bpf_any) ≡ some (v₂, t₂))
        × (syncookie_fn M e next.slot (arrived M e next t₂) ≡ ok xdp_drop (arrived M e next t₂))
  handle_frames-drop before between ack next t all other all' whole follows unknown =
      let k = connection_bytes e (connection e ack.mem) in
      let (v₁, t₁, handled₁, missing₁) = still_unknown k before t all unknown in
      let (reply, returned, is) =
        syncookie_fn-accept M e ack.slot (arrived M e ack t₁) other.whole.bytes
          (arrived-IsTcp ack t₁ follows.tcp) (other.whole.complete follows.tcp) missing₁
          follows.brings in
      let (v₂, t₂, handled₂, missing₂) =
        still_unknown k between (M.update t₁ ack.slot insert bpf_any) all'
          (other.aside t₁ ∙ missing₁) in
      (
        v₁,
        v₂,
        t₁,
        t₂,
        reply,
        handled₁,
        returned,
        handled₂,
        (syncookie_fn-drop_iff M e next.slot (arrived M e next t₂) whole.bytes).1 (
          arrived-IsTcp next t₂ follows.next_tcp,
          whole.complete follows.next_tcp,
          ap (λ c. M.lookup t₂ (connection_bytes e c)) follows.same ∙ missing₂,
          follows.no_syn,
          follows.no_ack,
        ),
      )
