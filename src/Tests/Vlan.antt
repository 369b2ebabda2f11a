-- ===== src/Tests/Vlan.antt =====
-- A frame with one VLAN tag, on a little-endian host.
use syncookie_xdp.Prelude.{ℕ, ◌≤◌, ◌<◌, ◌≡◌, ◌⊎◌, refl, some, none, arith, ◌==◌, if◌then◌else◌}
use syncookie_xdp.Packet.{Mem, IsBytes, little}
use syncookie_xdp.Machine.{State, ok}
use syncookie_xdp.ParsingHelpers.{parse_ethhdr, IsParsed, parse_ethhdr-IsParsed}

-- Type 0x8100, and in the tag the type 0x0800.
abbrev pub vlan_bytes : Mem
vlan_bytes a = if a == 12 then 0x81 else if a == 16 then 8 else 0

abbrev pub vlan_frame : State ℕ
vlan_frame = record { len = 40; mem = vlan_bytes; table = 0 }

pub vlan_bytes-IsBytes : IsBytes vlan_bytes
vlan_bytes-IsBytes a = ground arith

run_parse : parse_ethhdr little 0 vlan_frame ≡ ok (some (0x0800, 18)) vlan_frame
unfolding parse_ethhdr
run_parse = refl

parse_ethhdr-IsParsed_example :
    ((40 < 14) × (parse_ethhdr little 0 vlan_frame ≡ ok none vlan_frame))
    ⊎ ((14 ≤ 40)
        × IsParsed little vlan_frame vlan_bytes-IsBytes 0 (parse_ethhdr little 0 vlan_frame))
parse_ethhdr-IsParsed_example = parse_ethhdr-IsParsed little vlan_frame vlan_bytes-IsBytes 0
