-- ===== src/Headers/Tcp.antt =====
-- struct tcp_t of src/headers.h. `cwr` to `fin` are the places of the one-bit fields in the byte
-- at `flags`; `res` is the second half of the byte at `data_offset`.
use syncookie_xdp.Prelude.{ℕ}

abbrev pub src_port : ℕ
src_port = 0

abbrev pub dst_port : ℕ
dst_port = 2

abbrev pub seq_no : ℕ
seq_no = 4

abbrev pub ack_no : ℕ
ack_no = 8

abbrev pub data_offset : ℕ
data_offset = 12

abbrev pub flags : ℕ
flags = 13

abbrev pub size : ℕ
size = 20

abbrev pub cwr : ℕ
cwr = 0

abbrev pub ece : ℕ
ece = 1

abbrev pub urg : ℕ
urg = 2

abbrev pub ack : ℕ
ack = 3

abbrev pub psh : ℕ
psh = 4

abbrev pub rst : ℕ
rst = 5

abbrev pub syn : ℕ
syn = 6

abbrev pub fin : ℕ
fin = 7
