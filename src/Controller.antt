-- ===== src/Controller.antt =====
-- src/controller.c. The table of connections is a parameter: the kernel implements it.
pub mod Layout
pub mod Reply
pub mod Cookie
pub mod Decision
pub mod Cases
pub mod Returned
pub mod Flags
pub mod Syn
pub mod Ack
use Prim.Native.Nat.{bit_or, bit_xor}
use syncookie_xdp.Prelude.{
  ℕ, ◌+◌, ◌-◌, ◌*◌, ◌%◌, ◌^◌, Bool, true, false, List, [], ◌∷◌, Option, none, some, ◌==◌,
  if◌then◌else◌,
}
use syncookie_xdp.Packet.{Endian}
use syncookie_xdp.Machine.{
  KernelMap, Cmd, ok, pure, ◌>>=◌, ◌>>◌, load16, load32, load_bytes, load_bit, load_second_nibble,
  store16, store32, store_bytes, store_bit,
}
use syncookie_xdp.Headers.{Connection, Headers, connection_bytes}
use syncookie_xdp.Headers.Ethernet
use syncookie_xdp.Headers.Ipv4
use syncookie_xdp.Headers.Tcp

-- enum xdp_action of headers/linux/bpf.h.
pub data XdpAction : Type 0 where
  xdp_aborted xdp_drop xdp_pass xdp_tx xdp_redirect : XdpAction

-- The arithmetic of compute_cookie on __u32; `<<` is a multiplication.
unfoldable pub cookie_of : Connection → ℕ
cookie_of c =
    let auth = (c.src_port * 2 ^ 16) % 2 ^ 32 in
    let auth = bit_or auth c.dst_port in
    let auth = bit_xor auth c.src_addr in bit_xor auth c.dst_addr

module _ {T : Type 0} where
  unfoldable pub compute_connection : Endian → Headers → Cmd T Connection
  unfolding load16 load32
  compute_connection e hdr = do
    src_addr ← load32 e hdr.ipv4 Ipv4.src_addr
    dst_addr ← load32 e hdr.ipv4 Ipv4.dst_addr
    src_port ← load16 e hdr.tcp Tcp.src_port
    dst_port ← load16 e hdr.tcp Tcp.dst_port
    pure (record {
      src_addr = src_addr;
      dst_addr = dst_addr;
      src_port = src_port;
      dst_port = dst_port;
    })

  unfoldable pub compute_cookie : Endian → Headers → Cmd T ℕ
  unfolding load16 load32
  compute_cookie e hdr = do
    src_port ← load16 e hdr.tcp Tcp.src_port
    dst_port ← load16 e hdr.tcp Tcp.dst_port
    src_addr ← load32 e hdr.ipv4 Ipv4.src_addr
    dst_addr ← load32 e hdr.ipv4 Ipv4.dst_addr
    pure (
        cookie_of (record {
          src_addr = src_addr;
          dst_addr = dst_addr;
          src_port = src_port;
          dst_port = dst_port;
        }))

  -- The three copies under "MAC" in both handlers, in the order of the source. `tmp_addr` is a
  -- local array: the bytes that it holds.
  unfoldable pub swap_mac : Headers → Cmd T (Unit {0})
  unfolding load_bytes store_bytes
  swap_mac hdr = do
    tmp_addr ← load_bytes hdr.ether Ethernet.src_addr 6
    src ← load_bytes hdr.ether Ethernet.src_addr 6
    store_bytes hdr.ether Ethernet.dst_addr 6 src
    tmp_addr ← load_bytes hdr.ether Ethernet.dst_addr 6
    pure tt

  unfoldable pub swap_ip : Endian → Headers → Cmd T (Unit {0})
  unfolding load32 store32
  swap_ip e hdr = do
    ipaddr ← load32 e hdr.ipv4 Ipv4.src_addr
    dst_addr ← load32 e hdr.ipv4 Ipv4.dst_addr
    store32 e hdr.ipv4 Ipv4.src_addr dst_addr
    store32 e hdr.ipv4 Ipv4.dst_addr ipaddr

  unfoldable pub swap_ports : Endian → Headers → Cmd T (Unit {0})
  unfolding load16 store16
  swap_ports e hdr = do
    tcpport ← load16 e hdr.tcp Tcp.src_port
    dst_port ← load16 e hdr.tcp Tcp.dst_port
    store16 e hdr.tcp Tcp.src_port dst_port
    store16 e hdr.tcp Tcp.dst_port tcpport

  unfoldable pub handle_syn : Endian → Headers → ℕ → Cmd T XdpAction
  unfolding swap_mac swap_ip swap_ports load32 store32 store_bit
  handle_syn e hdr cookie = do
    swap_mac hdr
    swap_ip e hdr
    seq_no ← load32 e hdr.tcp Tcp.seq_no
    store32 e hdr.tcp Tcp.ack_no ((seq_no + 1) % 2 ^ 32)
    store32 e hdr.tcp Tcp.seq_no cookie
    store_bit e hdr.tcp Tcp.flags Tcp.ack 1
    swap_ports e hdr
    pure xdp_tx

  -- The conditions `field == 1 || ...`, which stop at the first that holds.
  unfoldable pub any_set : List (Cmd T ℕ) → Cmd T Bool
  any_set [] = pure false
  any_set (field ∷ fields) = do v ← field; if v == 1 then pure true else any_set fields

  -- What must not be 1 besides SYN and ACK together, in the order of the source.
  unfoldable pub other_fields : Endian → Headers → List (Cmd T ℕ)
  other_fields e hdr =
      load_second_nibble e hdr.tcp Tcp.data_offset
      ∷ load_bit e hdr.tcp Tcp.flags Tcp.cwr
      ∷ load_bit e hdr.tcp Tcp.flags Tcp.ece
      ∷ load_bit e hdr.tcp Tcp.flags Tcp.urg
      ∷ load_bit e hdr.tcp Tcp.flags Tcp.psh
      ∷ load_bit e hdr.tcp Tcp.flags Tcp.rst
      ∷ load_bit e hdr.tcp Tcp.flags Tcp.fin
      ∷ []

  -- The first condition of `controller`: SYN-ACK, or any flag but these two.
  unfoldable pub unwanted_flags : Endian → Headers → Cmd T Bool
  unwanted_flags e hdr = do
    syn ← load_bit e hdr.tcp Tcp.flags Tcp.syn
    if syn == 1
        then (do
          ack ← load_bit e hdr.tcp Tcp.flags Tcp.ack
          if ack == 1 then pure true else any_set (other_fields e hdr))
        else any_set (other_fields e hdr)

-- `char insert` of src/syncookie.c.
abbrev pub insert : ℕ
insert = b'a'

abbrev pub bpf_any : ℕ
bpf_any = 0

module _ (M : KernelMap) where
  -- bpf_map_lookup_elem(&connections_table, key).
  unfoldable pub table_lookup : List ℕ → Cmd M.Table (Option ℕ)
  table_lookup key s = ok (M.lookup s.table key) s

  -- bpf_map_update_elem(&connections_table, key, value, flags); no caller reads its result.
  unfoldable pub table_update : List ℕ → ℕ → ℕ → Cmd M.Table (Unit {0})
  table_update key value flags s = ok tt (record s { table = M.update s.table key value flags })

  -- `slot` stands for the 12 bytes at `&connection`. Since `connection` is a parameter that holds
  -- a pointer, these are the bytes of that pointer and what follows it on the stack.
  unfoldable pub handle_ack : Endian → List ℕ → Headers → Cmd M.Table XdpAction
  unfolding table_update swap_mac swap_ip swap_ports load32 store32 store_bit
  handle_ack e slot hdr = do
    table_update slot insert bpf_any
    swap_mac hdr
    swap_ip e hdr
    seq_no ← load32 e hdr.tcp Tcp.seq_no
    ack_no ← load32 e hdr.tcp Tcp.ack_no
    store32 e hdr.tcp Tcp.seq_no ack_no
    store32 e hdr.tcp Tcp.ack_no ((seq_no + 1) % 2 ^ 32)
    store_bit e hdr.tcp Tcp.flags Tcp.ack 1
    store_bit e hdr.tcp Tcp.flags Tcp.syn 0
    swap_ports e hdr
    pure xdp_tx

  -- The last branches of `controller`: a pure ACK that carries the cookie, or nothing good.
  unfoldable pub check_ack : Endian → List ℕ → Headers → ℕ → Cmd M.Table XdpAction
  check_ack e slot hdr cookie = do
    ack ← load_bit e hdr.tcp Tcp.flags Tcp.ack
    if ack == 1
        then (do
          ack_no ← load32 e hdr.tcp Tcp.ack_no
          if (ack_no + 2 ^ 32 - 1) % 2 ^ 32 == cookie then handle_ack e slot hdr else pure xdp_drop)
        else pure xdp_drop

  -- `controller` after the lookup has found nothing.
  unfoldable pub new_connection : Endian → List ℕ → Headers → Cmd M.Table XdpAction
  new_connection e slot hdr = do
    cookie ← compute_cookie e hdr
    unwanted ← unwanted_flags e hdr
    if unwanted then pure xdp_drop else do
      syn ← load_bit e hdr.tcp Tcp.flags Tcp.syn
      if syn == 1 then handle_syn e hdr cookie else check_ack e slot hdr cookie

  unfoldable pub controller : Endian → List ℕ → Headers → Cmd M.Table XdpAction
  unfolding table_lookup
  controller e slot hdr = do
    connection ← compute_connection e hdr
    res ← table_lookup (connection_bytes e connection)
    elim res [ some _ ↦ pure xdp_pass | none ↦ new_connection e slot hdr ]
