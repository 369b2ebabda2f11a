-- ===== src/Syncookie/Checksum.antt =====
-- The checksum of the IPv4 header (RFC 791): neither handler writes it, and exchanging the two
-- addresses keeps it right.
use syncookie_xdp.Prelude.{ℕ, ◌+◌}
use syncookie_xdp.Packet.{big, Mem, get16}

-- The sum of the ten 16-bit words of an IPv4 header without options, as they stand on the wire.
abbrev pub header_sum : Mem → ℕ
header_sum m =
    get16 big m 14
    + get16 big m 16
    + get16 big m 18
    + get16 big m 20
    + get16 big m 22
    + get16 big m 24
    + get16 big m 26
    + get16 big m 28
    + get16 big m 30
    + get16 big m 32
