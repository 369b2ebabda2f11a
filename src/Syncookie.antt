-- ===== src/Syncookie.antt =====
-- src/syncookie.c: the program at the XDP hook.
pub mod Entry
pub mod Outcome
pub mod Checksum
pub mod Handshake
pub mod Wire
pub mod Traffic
pub mod Replies
use syncookie_xdp.Prelude.{ℕ, List, Option, none, some, if◌then◌else◌}
use syncookie_xdp.Prelude.Int.{is_pos}
use syncookie_xdp.Packet.{Endian}
use syncookie_xdp.Machine.{KernelMap, Ptr, null, Cmd, pure, ◌>>=◌}
use syncookie_xdp.Headers.{HdrCursor, Headers}
use syncookie_xdp.Parser.{parse_ether, parse_ipv4, parse_tcphdr}
use syncookie_xdp.Controller.{XdpAction, xdp_pass, controller}

-- ETH_P_IP of linux/if_ether.h and IPPROTO_TCP of linux/in.h.
abbrev pub eth_p_ip : ℕ
eth_p_ip = 0x0800

abbrev pub ipproto_tcp : ℕ
ipproto_tcp = 6

-- The header pointer that a parser left in its slot.
abbrev pub slot_or : Option Ptr → Ptr → Ptr
slot_or (some p) old = p
slot_or none old = old

abbrev pub no_headers : Headers
no_headers = record { ether = null; ipv4 = null; tcp = null }

abbrev pub start : HdrCursor
start = record { pos = 0 }

module _ (M : KernelMap) where
  -- The label `parse_tcp`. The code that parse_tcphdr returns is not looked at.
  unfoldable pub parse_tcp : Endian → List ℕ → HdrCursor → Headers → Cmd M.Table XdpAction
  unfolding parse_tcphdr controller
  parse_tcp e slot nh hdr = do
    tcp ← parse_tcphdr nh (some hdr.tcp)
    controller M e slot (record hdr { tcp = slot_or tcp.out hdr.tcp })

  unfoldable pub syncookie_fn : Endian → List ℕ → Cmd M.Table XdpAction
  unfolding parse_ether parse_ipv4 parse_tcp
  syncookie_fn e slot = do
    ether ← parse_ether e start (some null)
    let hdr = record no_headers { ether = slot_or ether.out null }
    if is_pos ether.code eth_p_ip
        then (do
          ipv4 ← parse_ipv4 ether.nh (some null)
          let hdr = record hdr { ipv4 = slot_or ipv4.out null }
          if is_pos ipv4.code ipproto_tcp then parse_tcp e slot ipv4.nh hdr else pure xdp_pass)
        else pure xdp_pass
