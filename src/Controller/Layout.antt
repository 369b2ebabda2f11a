-- ===== src/Controller/Layout.antt =====
-- The pointers that the entry program hands to `controller` once all three parsers have
-- succeeded, and the view of a packet through them.
use syncookie_xdp.Prelude.{ℕ, List, [], ◌∷◌}
use syncookie_xdp.Packet.{Endian, Mem, get16, get32, get_bit, second_nibble}
pub use syncookie_xdp.Packet.{IsBytes}
use syncookie_xdp.Machine.{at}
use syncookie_xdp.Headers.{Connection, Headers}
use syncookie_xdp.Headers.Tcp

abbrev pub parsed : Headers
parsed = record { ether = at 0; ipv4 = at 14; tcp = at 34 }

-- The size of the three headers together.
abbrev pub headers_size : ℕ
headers_size = 54

abbrev pub src_addr : Endian → Mem → ℕ
src_addr e m = get32 e m 26

abbrev pub dst_addr : Endian → Mem → ℕ
dst_addr e m = get32 e m 30

abbrev pub src_port : Endian → Mem → ℕ
src_port e m = get16 e m 34

abbrev pub dst_port : Endian → Mem → ℕ
dst_port e m = get16 e m 36

abbrev pub seq_no : Endian → Mem → ℕ
seq_no e m = get32 e m 38

abbrev pub ack_no : Endian → Mem → ℕ
ack_no e m = get32 e m 42

abbrev pub flag : Endian → Mem → ℕ → ℕ
flag e m i = get_bit e (m 47) i

abbrev pub connection : Endian → Mem → Connection
connection e m = record {
  src_addr = src_addr e m;
  dst_addr = dst_addr e m;
  src_port = src_port e m;
  dst_port = dst_port e m;
}

-- The fields that must not be 1 in a handshake, in the order in which the code reads them.
abbrev pub other_flags : Endian → Mem → List ℕ
other_flags e m =
    second_nibble e (m 46)
    ∷ flag e m Tcp.cwr
    ∷ flag e m Tcp.ece
    ∷ flag e m Tcp.urg
    ∷ flag e m Tcp.psh
    ∷ flag e m Tcp.rst
    ∷ flag e m Tcp.fin
    ∷ []
