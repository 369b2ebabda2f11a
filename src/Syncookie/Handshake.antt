-- ===== src/Syncookie/Handshake.antt =====
-- A whole handshake: a SYN, the client's answer to the reply, and the state in between, which is
-- all in the packets.
use syncookie_xdp.Prelude.{ℕ, ◌+◌, ◌%◌, ◌^◌, ◌≤◌, ◌≡◌, ◌≢◌, ◌∙◌, sym, ap, false, List, none, arith}
use syncookie_xdp.Packet.{Endian, little, big, Mem, get32}
use syncookie_xdp.Machine.{KernelMap, State, ok}
use syncookie_xdp.Headers.{Connection}
use syncookie_xdp.Headers.Tcp
use syncookie_xdp.Controller.{xdp_drop, xdp_tx, cookie_of, insert, bpf_any}
use syncookie_xdp.Controller.Layout.{
  headers_size, IsBytes, connection, other_flags, flag, seq_no, ack_no,
}
use syncookie_xdp.Controller.Decision.{has_one, known, expected}
use syncookie_xdp.Controller.Cases.{IsSyn}
use syncookie_xdp.Controller.Ack.{IsAck}
use syncookie_xdp.Syncookie.{syncookie_fn}
use syncookie_xdp.Syncookie.Entry.{IsTcp}
use syncookie_xdp.Syncookie.Outcome.{syncookie_fn-drop_iff}
use syncookie_xdp.Syncookie.Replies.{
  syncookie_fn-answer, syncookie_fn-accept, syncookie_fn-IsPreserved,
}

-- A complete TCP packet of a connection that is not in the table.
pub record IsNew (M : KernelMap) (e : Endian) (s : State M.Table) : Type 0 where
  pub bytes : IsBytes s.mem
  pub tcp : IsTcp e s
  pub fits : headers_size ≤ s.len
  pub unknown : known M e s ≡ none

-- Of the flags that the filter reads only ACK is set.
pub record IsAckOnly (e : Endian) (m : Mem) : Type 0 where
  pub others : has_one (other_flags e m) ≡ false
  pub no_syn : flag e m Tcp.syn ≢ 1
  pub ack : flag e m Tcp.ack ≡ 1

-- Where counting up by one is the same in both orders of the bytes, the word wraps.
counts_alike :
    (m n : Mem)
    → IsBytes m
    → IsBytes n
    → get32 big n 42 ≡ (get32 big m 38 + 1) % 2 ^ 32
    → get32 little n 42 ≡ (get32 little m 38 + 1) % 2 ^ 32
    → get32 little m 38 ≡ 0xffff_ffff
counts_alike m n hm hn wire host =
    omega (arith, hm 38, hm 39, hm 40, hm 41, hn 42, hn 43, hn 44, hn 45)

-- The number that a reply carries is the cookie of the connection.
pub answer-cookie :
    (M : KernelMap) (e : Endian) (slot : List ℕ) (s s₁ : State M.Table)
    → IsNew M e s
    → IsSyn e s.mem
    → syncookie_fn M e slot s ≡ ok xdp_tx s₁
    → seq_no e s₁.mem ≡ cookie_of (connection e s.mem)
answer-cookie M e slot s s₁ new syn run =
    let (m', answered, is) =
      syncookie_fn-answer M e slot s new.bytes new.tcp new.fits new.unknown syn in
    let p : s₁ ≡ record s { mem = m' } = cc (run, answered) in
    ap (λ (t : State M.Table). seq_no e t.mem) p ∙ is.carries

module _ (M : KernelMap) (slot : List ℕ) where
  -- An ACK that acknowledges the cookie of its connection, said of that connection.
  pub number-accept :
      (e : Endian) (s : State M.Table) (c : Connection)
      → IsNew M e s
      → IsAckOnly e s.mem
      → connection e s.mem ≡ c
      → ack_no e s.mem ≡ (cookie_of c + 1) % 2 ^ 32
      → (m' : Mem) × (syncookie_fn M e slot s
          ≡ ok xdp_tx (record s { mem = m'; table = M.update s.table slot insert bpf_any }))
        × IsAck e s.mem m'
  number-accept e s c new ack same number =
      let cookies : cookie_of (connection e s.mem) ≡ cookie_of c = ap cookie_of same in
      let expects : ack_no e s.mem ≡ expected e s.mem = omega arith in
      syncookie_fn-accept M e slot s new.bytes new.tcp new.fits new.unknown
        (record { others = ack.others; no_syn = ack.no_syn; ack = ack.ack; number = expects })

  -- A client sends a SYN, gets the reply, and sends an ACK of the same connection that
  -- acknowledges the number of the reply, as the host reads the numbers: the program accepts the
  -- ACK, though it kept nothing of the SYN. On a big-endian host these are the wire's numbers.
  pub handshake-accept :
      (e : Endian) (s s₁ s₂ : State M.Table)
      → IsNew M e s
      → IsSyn e s.mem
      → syncookie_fn M e slot s ≡ ok xdp_tx s₁
      → IsNew M e s₂
      → IsAckOnly e s₂.mem
      → connection e s₂.mem ≡ connection e s.mem
      → ack_no e s₂.mem ≡ (seq_no e s₁.mem + 1) % 2 ^ 32
      → (m' : Mem) × (syncookie_fn M e slot s₂
          ≡ ok xdp_tx (record s₂ { mem = m'; table = M.update s₂.table slot insert bpf_any }))
        × IsAck e s₂.mem m'
  handshake-accept e s s₁ s₂ new syn run new₂ ack same number =
      let carried = answer-cookie M e slot s s₁ new syn run in
      number-accept e s₂ (connection e s.mem) new₂ ack same (omega arith)

  -- On a little-endian host, for complete packets that are as the filter expects them there (the
  -- EtherType in the bytes 00 08, which no IPv4 frame has, and the flags where that host reads them) and
  -- of one connection, which is not in the table: once its SYN was answered, the ACK whose number is
  -- one more than that of the reply, in the order of the wire, is dropped, unless the cookie is the one
  -- word that wraps to 0.
  pub handshake-drop_little :
      (s s₁ s₂ : State M.Table)
      → IsNew M little s
      → IsSyn little s.mem
      → syncookie_fn M little slot s ≡ ok xdp_tx s₁
      → IsNew M little s₂
      → IsAckOnly little s₂.mem
      → connection little s₂.mem ≡ connection little s.mem
      → get32 big s₂.mem 42 ≡ (get32 big s₁.mem 38 + 1) % 2 ^ 32
      → cookie_of (connection little s.mem) ≢ 0xffff_ffff
      → syncookie_fn M little slot s₂ ≡ ok xdp_drop s₂
  handshake-drop_little s s₁ s₂ new syn run new₂ ack same number wraps =
      let carried = answer-cookie M little slot s s₁ new syn run in
      let cookies : cookie_of (connection little s₂.mem) ≡ cookie_of (connection little s.mem) =
        ap cookie_of same in
      let kept = syncookie_fn-IsPreserved M little slot s new.bytes run in
      (syncookie_fn-drop_iff M little slot s₂ new₂.bytes).1 (
        new₂.tcp,
        new₂.fits,
        new₂.unknown,
        λ syn₂. ack.no_syn syn₂.syn,
        λ accepted. refused carried cookies kept.bytes accepted.number,
      )
    where
      refused :
          seq_no little s₁.mem ≡ cookie_of (connection little s.mem)
          → cookie_of (connection little s₂.mem) ≡ cookie_of (connection little s.mem)
          → IsBytes s₁.mem
          → ack_no little s₂.mem ≢ expected little s₂.mem
      refused carried cookies bytes₁ h =
          wraps (sym carried ∙ counts_alike s₁.mem s₂.mem bytes₁ new₂.bytes number (omega arith))
