-- ===== src/Headers/Ipv4.antt =====
-- struct ipv4_t of src/headers.h: the fields that the filter uses, and the size.
use syncookie_xdp.Prelude.{ℕ}

abbrev pub protocol : ℕ
protocol = 9

abbrev pub src_addr : ℕ
src_addr = 12

abbrev pub dst_addr : ℕ
dst_addr = 16

abbrev pub size : ℕ
size = 20
