-- ===== src/Headers.antt =====
-- src/headers.h: the structures that the filter lays over a packet. All of them are packed, so a
-- field is its offset in the struct; the bit-fields of a byte are places in it (Packet).
pub mod Ethernet
pub mod Ipv4
pub mod Tcp
use syncookie_xdp.Prelude.{ℕ, List}
use syncookie_xdp.Packet.{Endian, put16, put32, get_bytes}
use syncookie_xdp.Machine.{Ptr}

-- struct connection_t.
pub record Connection : Type 0 where
  pub src_addr : ℕ
  pub dst_addr : ℕ
  pub src_port : ℕ
  pub dst_port : ℕ

-- struct hdr_cursor; `data` is offset 0.
pub record HdrCursor : Type 0 where
  pub pos : ℕ

-- struct headers_t.
pub record Headers : Type 0 where
  pub ether : Ptr
  pub ipv4 : Ptr
  pub tcp : Ptr

-- The bytes of a connection_t in memory, as the kernel's map reads a key.
unfoldable pub connection_bytes : Endian → Connection → List ℕ
connection_bytes e c =
    let m = put32 e (put32 e (λ _. 0) 0 c.src_addr) 4 c.dst_addr in
    get_bytes (put16 e (put16 e m 8 c.src_port) 10 c.dst_port) 0 12
