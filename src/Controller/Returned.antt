-- ===== src/Controller/Returned.antt =====
-- What both handlers are to do with a packet before they send it back, and what both leave alone.
use syncookie_xdp.Prelude.{ℕ, ◌≤◌, ◌<◌, ◌≡◌, ◌⊎◌}
use syncookie_xdp.Packet.{Endian, Mem, get_bytes}
use syncookie_xdp.Controller.Layout.{src_addr, dst_addr, src_port, dst_port, other_flags}

-- Addresses and ports are exchanged, the frame goes to the MAC address that it came from, and
-- what stands outside these fields, the two sequence numbers and the byte of flags is as it was.
pub record IsReturned (e : Endian) (m m' : Mem) : Type 0 where
  pub to_sender : get_bytes m' 0 6 ≡ get_bytes m 6 6
  pub source : src_addr e m' ≡ dst_addr e m
  pub destination : dst_addr e m' ≡ src_addr e m
  pub from_port : src_port e m' ≡ dst_port e m
  pub to_port : dst_port e m' ≡ src_port e m
  pub others : other_flags e m' ≡ other_flags e m
  pub rest : (a : ℕ) → (6 ≤ a) × (a < 26) ⊎ ((a ≡ 46) ⊎ (48 ≤ a)) → m' a ≡ m a
