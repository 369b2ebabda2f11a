-- ===== src/Headers/Ethernet.antt =====
-- struct ethernet_t of src/headers.h.
use syncookie_xdp.Prelude.{ℕ}

abbrev pub dst_addr : ℕ
dst_addr = 0

abbrev pub src_addr : ℕ
src_addr = 6

abbrev pub ether_type : ℕ
ether_type = 12

abbrev pub size : ℕ
size = 14
