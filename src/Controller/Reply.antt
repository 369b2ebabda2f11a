-- ===== src/Controller/Reply.antt =====
-- The packet that each handler leaves in memory, as a function of the packet before.
use syncookie_xdp.Prelude.{ℕ, ◌+◌, ◌%◌, ◌^◌, ◌≤◌, ◌≡◌, true, List, arith, leb, le→leb}
use syncookie_xdp.Packet.{
  Endian, little, big, Mem, get16, get32, put8, put16, put32, put_bit, get_bytes, put_bytes,
}
use syncookie_xdp.Packet.{IsBytes}
use syncookie_xdp.Machine.{KernelMap, State, ok}
use syncookie_xdp.Headers.Tcp
use syncookie_xdp.Controller.{handle_syn, handle_ack, xdp_tx, insert, bpf_any}
use syncookie_xdp.Controller.Layout.{parsed, headers_size, seq_no, ack_no}

-- Both handlers copy the sender's MAC address and exchange the IP addresses, and in the end the
-- ports.
unfoldable pub addresses_turned : Endian → Mem → Mem
addresses_turned e m =
    let m = put_bytes m 0 (get_bytes m 6 6) in
    put32 e (put32 e m 26 (get32 e m 30)) 30 (get32 e m 26)

unfoldable pub ports_turned : Endian → Mem → Mem
ports_turned e m = put16 e (put16 e m 34 (get16 e m 36)) 36 (get16 e m 34)

-- What handle_syn makes of the packet.
unfoldable pub syn_reply : Endian → ℕ → Mem → Mem
unfolding addresses_turned ports_turned
syn_reply e cookie m =
    let m = addresses_turned e m in
    let m = put32 e m 42 ((seq_no e m + 1) % 2 ^ 32) in
    let m = put32 e m 38 cookie in ports_turned e (put8 m 47 (put_bit e (m 47) Tcp.ack 1))

-- What handle_ack makes of the packet.
unfoldable pub ack_reply : Endian → Mem → Mem
unfolding addresses_turned ports_turned
ack_reply e m =
    let m = addresses_turned e m in
    let seq = seq_no e m in
    let m = put32 e m 38 (ack_no e m) in
    let m = put32 e m 42 ((seq + 1) % 2 ^ 32) in
    let m = put8 m 47 (put_bit e (m 47) Tcp.ack 1) in
    ports_turned e (put8 m 47 (put_bit e (m 47) Tcp.syn 0))

module _ (m : Mem) (bytes : IsBytes m) where
  pub syn_reply-IsBytes : (e : Endian) (cookie : ℕ) → IsBytes (syn_reply e cookie m)
  unfolding syn_reply
  syn_reply-IsBytes little cookie a = ground (arith, bytes a)
  syn_reply-IsBytes big cookie a = ground (arith, bytes a)

  pub ack_reply-IsBytes : (e : Endian) → IsBytes (ack_reply e m)
  unfolding ack_reply
  ack_reply-IsBytes little a = ground (arith, bytes a)
  ack_reply-IsBytes big a = ground (arith, bytes a)

module _ (M : KernelMap) (e : Endian) (s : State M.Table) (fits : headers_size ≤ s.len) where
  -- An access that ends within the headers is in the packet.
  pub within : (n : ℕ) → n ≤ headers_size → leb n s.len ≡ true
  within n h = le→leb n s.len (omega arith)

  pub handle_syn-ok :
      (cookie : ℕ)
      → handle_syn e parsed cookie s ≡ ok xdp_tx (record s { mem = syn_reply e cookie s.mem })
  unfolding handle_syn syn_reply
  handle_syn-ok cookie = simp (
    within 6 (omega arith),
    within 12 (omega arith),
    within 30 (omega arith),
    within 34 (omega arith),
    within 36 (omega arith),
    within 38 (omega arith),
    within 42 (omega arith),
    within 46 (omega arith),
    within 48 (omega arith),
  )

  pub handle_ack-ok :
      (slot : List ℕ)
      → handle_ack M e slot parsed s
        ≡ ok xdp_tx
            (record s { mem = ack_reply e s.mem; table = M.update s.table slot insert bpf_any })
  unfolding handle_ack ack_reply
  handle_ack-ok slot = simp (
    within 6 (omega arith),
    within 12 (omega arith),
    within 30 (omega arith),
    within 34 (omega arith),
    within 36 (omega arith),
    within 38 (omega arith),
    within 42 (omega arith),
    within 46 (omega arith),
    within 48 (omega arith),
  )
