-- ===== src/Controller/Cookie.antt =====
-- compute_cookie: the range of a cookie, and what it does and does not tell apart.
use Prim.Native.Nat.{bit_xor}
use syncookie_xdp.Prelude.{ℕ, ◌+◌, ◌*◌, ◌%◌, ◌^◌, ◌<◌, ◌≡◌, ◌⊎◌, ◌↔◌, inl, inr, ◌∙◌, arith}
use syncookie_xdp.Packet.{Endian, little, big, Mem}
use syncookie_xdp.Bits.{bit_xor-lt, bit_xor-cancel, bit_xor_right_comm, bit_or-shifted}
use syncookie_xdp.Headers.{Connection}
use syncookie_xdp.Controller.{cookie_of}
use syncookie_xdp.Controller.Layout.{IsBytes, connection, ack_no}

-- The fields of a connection_t hold __u32 and __u16 values.
pub record IsConnection (c : Connection) : Type 0 where
  pub src_addr-lt : c.src_addr < 2 ^ 32
  pub dst_addr-lt : c.dst_addr < 2 ^ 32
  pub src_port-lt : c.src_port < 2 ^ 16
  pub dst_port-lt : c.dst_port < 2 ^ 16

pub connection-IsConnection : (e : Endian) (m : Mem) → IsBytes m → IsConnection (connection e m)
connection-IsConnection little m bytes = record {
  src_addr-lt = omega (arith, bytes 26, bytes 27, bytes 28, bytes 29);
  dst_addr-lt = omega (arith, bytes 30, bytes 31, bytes 32, bytes 33);
  src_port-lt = omega (arith, bytes 34, bytes 35);
  dst_port-lt = omega (arith, bytes 36, bytes 37);
}
connection-IsConnection big m bytes = record {
  src_addr-lt = omega (arith, bytes 26, bytes 27, bytes 28, bytes 29);
  dst_addr-lt = omega (arith, bytes 30, bytes 31, bytes 32, bytes 33);
  src_port-lt = omega (arith, bytes 34, bytes 35);
  dst_port-lt = omega (arith, bytes 36, bytes 37);
}

pub ack_no-lt : (e : Endian) (m : Mem) → IsBytes m → ack_no e m < 2 ^ 32
ack_no-lt little m bytes = omega (arith, bytes 42, bytes 43, bytes 44, bytes 45)
ack_no-lt big m bytes = omega (arith, bytes 42, bytes 43, bytes 44, bytes 45)

-- The two ports, one in each half of the word.
abbrev ports : Connection → ℕ
ports c = c.src_port * 2 ^ 16 + c.dst_port

module _ (c : Connection) (valid : IsConnection c) where
  ports-lt : ports c < 2 ^ 32
  ports-lt = omega (arith, valid.src_port-lt, valid.dst_port-lt)

  cookie_of-ports : cookie_of c ≡ bit_xor (bit_xor (ports c) c.src_addr) c.dst_addr
  unfolding cookie_of
  cookie_of-ports =
      let shifted : c.src_port * 2 ^ 16 % 2 ^ 32 ≡ c.src_port * 2 ^ 16 =
        omega (arith, valid.src_port-lt) in
      let joined = bit_or-shifted 16 16 c.src_port c.dst_port valid.src_port-lt valid.dst_port-lt in
      rw (shifted, joined)

  mixed-lt : bit_xor (ports c) c.src_addr < 2 ^ 32
  mixed-lt = bit_xor-lt 32 _ _ ports-lt valid.src_addr-lt

  pub cookie_of-lt : cookie_of c < 2 ^ 32
  cookie_of-lt = rw cookie_of-ports (bit_xor-lt 32 _ _ mixed-lt valid.dst_addr-lt)

  -- Mixing the addresses in again gives the ports back.
  cookie_of-undo : bit_xor (bit_xor (cookie_of c) c.dst_addr) c.src_addr ≡ ports c
  cookie_of-undo = rw (
    cookie_of-ports,
    bit_xor-cancel 32 _ _ mixed-lt valid.dst_addr-lt,
    bit_xor-cancel 32 _ _ ports-lt valid.src_addr-lt,
  )

  cookie_of-exchanged : cookie_of c ≡ bit_xor (bit_xor (ports c) c.dst_addr) c.src_addr
  cookie_of-exchanged =
      cookie_of-ports ∙ bit_xor_right_comm 32 _ _ _ ports-lt valid.src_addr-lt valid.dst_addr-lt

  cookie_of-undo_exchanged : bit_xor (bit_xor (cookie_of c) c.src_addr) c.dst_addr ≡ ports c
  cookie_of-undo_exchanged =
      bit_xor_right_comm 32 _ _ _ cookie_of-lt valid.src_addr-lt valid.dst_addr-lt ∙ cookie_of-undo

-- Between the same two hosts the cookie tells every pair of ports apart, and it is the same for
-- the connection with the two addresses exchanged and the ports kept.
pub cookie_of-iff-ports :
    (c d : Connection)
    → IsConnection c
    → IsConnection d
    → ((c.src_addr ≡ d.src_addr) × (c.dst_addr ≡ d.dst_addr))
      ⊎ ((c.src_addr ≡ d.dst_addr) × (c.dst_addr ≡ d.src_addr))
    → (cookie_of c ≡ cookie_of d) ↔ ((c.src_port ≡ d.src_port) × (c.dst_port ≡ d.dst_port))
cookie_of-iff-ports c d vc vd (inl same) = (
  λ h. let p : ports c ≡ ports d = cc (cookie_of-undo c vc, cookie_of-undo d vd) in omega arith,
  λ h. cc (cookie_of-ports c vc, cookie_of-ports d vd),
)
cookie_of-iff-ports c d vc vd (inr swapped) = (
  λ h.
      let p : ports c ≡ ports d = cc (cookie_of-undo c vc, cookie_of-undo_exchanged d vd) in
      omega arith,
  λ h. cc (cookie_of-ports c vc, cookie_of-exchanged d vd),
)
