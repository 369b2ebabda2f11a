-- ===== src/Syncookie/Outcome.antt =====
-- What the entry program returns, for every packet: the four results, each with the exact
-- condition under which it occurs.
use syncookie_xdp.Prelude.{ℕ, ◌≤◌, ◌<◌, ◌≡◌, ◌≢◌, ◌↔◌, ◌⊎◌, inl, inr, refl, ◌∙◌, sym, List, none}
use syncookie_xdp.Packet.{Endian}
use syncookie_xdp.Machine.{KernelMap, State, ok, fault}
use syncookie_xdp.Controller.{xdp_drop, xdp_pass}
use syncookie_xdp.Controller.Layout.{headers_size, IsBytes}
use syncookie_xdp.Controller.Decision.{
  Decision, pass_on, refuse, answer, accept, decide, carry_out, known, controller-decide,
}
use syncookie_xdp.Controller.Cases.{IsSyn, IsCookieAck, decide-pass_iff, decide-refuse_iff}
use syncookie_xdp.Syncookie.{syncookie_fn}
use syncookie_xdp.Syncookie.Entry.{IsTcp, IsTcp-or, fits-or, entry-tcp, entry-short, entry-other}

module _ (M : KernelMap) (e : Endian) (slot : List ℕ) (s : State M.Table) where
  carry_out-pass : (d : Decision) → carry_out M e slot d s ≡ ok xdp_pass s → d ≡ pass_on
  carry_out-pass pass_on h = refl
  carry_out-pass refuse h = cc
  carry_out-pass answer h = cc
  carry_out-pass accept h = cc

  carry_out-drop : (d : Decision) → carry_out M e slot d s ≡ ok xdp_drop s → d ≡ refuse
  carry_out-drop refuse h = refl
  carry_out-drop pass_on h = cc
  carry_out-drop answer h = cc
  carry_out-drop accept h = cc

  carry_out-ne-fault : (d : Decision) → carry_out M e slot d s ≢ fault
  carry_out-ne-fault refuse h = cc
  carry_out-ne-fault pass_on h = cc
  carry_out-ne-fault answer h = cc
  carry_out-ne-fault accept h = cc

module _ (M : KernelMap) (e : Endian) (slot : List ℕ) (s : State M.Table)
    (bytes : IsBytes s.mem) where
  abbrev decision : Decision
  decision = decide (known M e s) e s.mem

  -- On a TCP packet whose headers are complete, the program does what the decision says, which is made
  -- from the fields of the headers, the cookie of the connection and what the table holds for it.
  pub syncookie_fn-decide :
      IsTcp e s → headers_size ≤ s.len → syncookie_fn M e slot s ≡ carry_out M e slot decision s
  syncookie_fn-decide tcp fits =
      entry-tcp M e slot s tcp fits ∙ controller-decide M e slot s fits bytes

  -- The program makes an invalid access exactly on a TCP packet that ends before its TCP header
  -- does: the pointer to that header is then NULL, and `controller` reads through it.
  pub syncookie_fn-fault_iff :
      (syncookie_fn M e slot s ≡ fault) ↔ (IsTcp e s × (s.len < headers_size))
  syncookie_fn-fault_iff = (forward, λ h. entry-short M e slot s h.0 h.1)
    where
      forward : syncookie_fn M e slot s ≡ fault → IsTcp e s × (s.len < headers_size)
      forward h = elim (IsTcp-or e s) [
        | inl tcp ↦ elim (fits-or s) [
          | inl fits ↦
              absurd
                (carry_out-ne-fault M e slot s decision (sym (syncookie_fn-decide tcp fits) ∙ h))
          | inr short ↦ (tcp, short)
        ]
        | inr other ↦ cc (entry-other M e slot s other, h)
      ]

  -- A packet is passed on unchanged exactly if it is no TCP packet, or its headers are complete
  -- and its connection is in the table.
  pub syncookie_fn-pass_iff :
      (syncookie_fn M e slot s ≡ ok xdp_pass s)
      ↔ ((¬ IsTcp e s) ⊎ ((headers_size ≤ s.len) × (known M e s ≢ none)))
  syncookie_fn-pass_iff = (forward, backward)
    where
      forward :
          syncookie_fn M e slot s ≡ ok xdp_pass s
          → (¬ IsTcp e s) ⊎ ((headers_size ≤ s.len) × (known M e s ≢ none))
      forward h = elim (IsTcp-or e s) [
        | inr other ↦ inl other
        | inl tcp ↦ elim (fits-or s) [
          | inr short ↦ cc (entry-short M e slot s tcp short, h)
          | inl fits ↦
              let d = carry_out-pass M e slot s decision (sym (syncookie_fn-decide tcp fits) ∙ h) in
              inr (fits, (decide-pass_iff e s.mem (known M e s)).0 d)
        ]
      ]

      backward :
          (¬ IsTcp e s) ⊎ ((headers_size ≤ s.len) × (known M e s ≢ none))
          → syncookie_fn M e slot s ≡ ok xdp_pass s
      backward (inl other) = entry-other M e slot s other
      backward (inr (fits, found)) = elim (IsTcp-or e s) [
        | inr other ↦ entry-other M e slot s other
        | inl tcp ↦
            cc (syncookie_fn-decide tcp fits, (decide-pass_iff e s.mem (known M e s)).1 found)
      ]

  -- A packet is dropped exactly if it holds all three headers, its connection is not in the table,
  -- and it is neither a SYN alone nor an ACK alone that acknowledges the cookie.
  pub syncookie_fn-drop_iff : (syncookie_fn M e slot s ≡ ok xdp_drop s) ↔ (
      IsTcp e s
      × (headers_size ≤ s.len)
      × (known M e s ≡ none)
      × ¬ IsSyn e s.mem
      × ¬ IsCookieAck e s.mem)
  syncookie_fn-drop_iff = (forward, backward)
    where
      forward :
          syncookie_fn M e slot s ≡ ok xdp_drop s
          → IsTcp e s
            × (headers_size ≤ s.len)
            × (known M e s ≡ none)
            × ¬ IsSyn e s.mem
            × ¬ IsCookieAck e s.mem
      forward h = elim (IsTcp-or e s) [
        | inr other ↦ cc (entry-other M e slot s other, h)
        | inl tcp ↦ elim (fits-or s) [
          | inr short ↦ cc (entry-short M e slot s tcp short, h)
          | inl fits ↦
              let d = carry_out-drop M e slot s decision (sym (syncookie_fn-decide tcp fits) ∙ h) in
              let r = (decide-refuse_iff e s.mem (known M e s)).0 d in (tcp, fits, r.0, r.1, r.2)
        ]
      ]

      backward :
          IsTcp e s
            × (headers_size ≤ s.len)
            × (known M e s ≡ none)
            × ¬ IsSyn e s.mem
            × ¬ IsCookieAck e s.mem
          → syncookie_fn M e slot s ≡ ok xdp_drop s
      backward h =
          cc (
            syncookie_fn-decide h.0 h.1,
            (decide-refuse_iff e s.mem (known M e s)).1 (h.2, h.3, h.4),
          )
