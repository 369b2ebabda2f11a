-- ===== src/Parser.antt =====
-- src/parser.h. A parser gets the cursor, and the slot for the header's address, or NULL in place
-- of the slot; it returns its code and what it left in both.
pub mod Bounds
use syncookie_xdp.Prelude.{ℕ, ◌+◌, Option, none, some, ltb, if◌then◌else◌}
use syncookie_xdp.Prelude.Int.{ℤ, pos, negsuc}
use syncookie_xdp.Packet.{Endian}
use syncookie_xdp.Machine.{Ptr, at, Cmd, pure, ◌>>=◌, load8, load16, data_end}
use syncookie_xdp.Headers.{HdrCursor}
use syncookie_xdp.Headers.Ethernet
use syncookie_xdp.Headers.Ipv4
use syncookie_xdp.Headers.Tcp

pub record Parsed : Type 0 where
  pub code : ℤ
  pub nh : HdrCursor
  pub out : Option Ptr

-- `if (slot != NULL) *slot = ptr;`
abbrev pub write_slot : Option Ptr → Ptr → Option Ptr
write_slot none ptr = none
write_slot (some old) ptr = some ptr

-- `return -1;`, before anything is written.
abbrev pub too_short : HdrCursor → Option Ptr → Parsed
too_short nh out = record { code = negsuc 0; nh = nh; out = out }

abbrev pub cursor : ℕ → HdrCursor
cursor p = record { pos = p }

module _ {T : Type 0} where
  unfoldable pub parse_ether : Endian → HdrCursor → Option Ptr → Cmd T Parsed
  unfolding data_end load16
  parse_ether e nh etherhdr = do
    end ← data_end
    let ptr = at nh.pos
    if ltb end (nh.pos + Ethernet.size) then pure (too_short nh etherhdr) else do
      ether_type ← load16 e ptr Ethernet.ether_type
      pure (record {
        code = pos ether_type;
        nh = cursor (nh.pos + Ethernet.size);
        out = write_slot etherhdr ptr;
      })

  unfoldable pub parse_ipv4 : HdrCursor → Option Ptr → Cmd T Parsed
  unfolding data_end load8
  parse_ipv4 nh iphdr = do
    end ← data_end
    let ptr = at nh.pos
    if ltb end (nh.pos + Ipv4.size) then pure (too_short nh iphdr) else do
      protocol ← load8 ptr Ipv4.protocol
      pure (record {
        code = pos protocol;
        nh = cursor (nh.pos + Ipv4.size);
        out = write_slot iphdr ptr;
      })

  unfoldable pub parse_tcphdr : HdrCursor → Option Ptr → Cmd T Parsed
  unfolding data_end
  parse_tcphdr nh tcphdr = do
    end ← data_end
    let tcph = at nh.pos
    if ltb end (nh.pos + Tcp.size)
        then pure (too_short nh tcphdr)
        else pure
            (record { code = pos 0; nh = cursor (nh.pos + Tcp.size); out = write_slot tcphdr tcph })
