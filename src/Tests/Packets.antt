-- ===== src/Tests/Packets.antt =====
-- Packets and a table for the examples.
use syncookie_xdp.Prelude.{
  ℕ, zero, suc, ◌<◌, Bool, true, false, ◌&&◌, List, [], ◌∷◌, Option, none, some, arith, ◌==◌,
  if◌then◌else◌,
}
use syncookie_xdp.Packet.{Mem, IsBytes}
use syncookie_xdp.Machine.{KernelMap, State}

abbrev pub byte_at : List ℕ → Mem
byte_at [] a = 0
byte_at (b ∷ bs) zero = b
byte_at (b ∷ bs) (suc a) = byte_at bs a

abbrev AllBytes : List ℕ → Type 0
AllBytes [] = Unit
AllBytes (b ∷ bs) = (b < 256) × AllBytes bs

pub byte_at-IsBytes : (bs : List ℕ) → AllBytes bs → IsBytes (byte_at bs)
byte_at-IsBytes [] h a = omega arith
byte_at-IsBytes (b ∷ bs) h zero = h.0
byte_at-IsBytes (b ∷ bs) h (suc a) = byte_at-IsBytes bs h.1 a

abbrev pub same_key : List ℕ → List ℕ → Bool
same_key [] [] = true
same_key (a ∷ as') (b ∷ bs) = a == b && same_key as' bs
same_key _ _ = false

-- A map that finds exactly the keys that were put into it.
abbrev pub exact_map : KernelMap
exact_map = record {
  Table = List ℕ → Option ℕ;
  lookup = λ t k. t k;
  update = λ t k v flags j. if same_key j k then some v else t j;
}

abbrev pub empty : List ℕ → Option ℕ
empty k = none

-- From 10.0.0.1:4660 to 10.0.0.2:80, in the order of the wire.
abbrev pub link : ℕ → ℕ → List ℕ → List ℕ
link t₁ t₂ rest = 1 ∷ 2 ∷ 3 ∷ 4 ∷ 5 ∷ 6 ∷ 7 ∷ 8 ∷ 9 ∷ 10 ∷ 11 ∷ 12 ∷ t₁ ∷ t₂ ∷ rest

abbrev pub ip : List ℕ → List ℕ
ip rest =
    0x45 ∷ 0 ∷ 0 ∷ 40 ∷ 0 ∷ 1 ∷ 0 ∷ 0 ∷ 64 ∷ 6 ∷ 0x66 ∷ 0xcd ∷ 10 ∷ 0 ∷ 0 ∷ 1 ∷ 10 ∷ 0 ∷ 0 ∷ 2
    ∷ rest

abbrev pub tcp : ℕ → ℕ → ℕ → ℕ → ℕ → ℕ → List ℕ
tcp a₀ a₁ a₂ a₃ offset flags =
    0x12 ∷ 0x34 ∷ 0 ∷ 80 ∷ 0 ∷ 0 ∷ 0 ∷ 100 ∷ a₀ ∷ a₁ ∷ a₂ ∷ a₃ ∷ offset ∷ flags ∷ 0 ∷ 64 ∷ 0 ∷ 0 ∷ 0
    ∷ 0 ∷ []

abbrev pub state : ℕ → List ℕ → State (List ℕ → Option ℕ)
state n bs = record { len = n; mem = byte_at bs; table = empty }

-- A SYN as a big-endian host reads it, and the ACK that acknowledges its cookie.
abbrev pub syn_big : List ℕ
syn_big = link 8 0 (ip (tcp 0 0 0 0 0x50 2))

abbrev pub ack_big : List ℕ
ack_big = link 8 0 (ip (tcp 0x12 0x34 0 0x54 0x50 16))

pub syn_big-IsBytes : IsBytes (byte_at syn_big)
syn_big-IsBytes = byte_at-IsBytes syn_big (omega arith)

pub ack_big-IsBytes : IsBytes (byte_at ack_big)
ack_big-IsBytes = byte_at-IsBytes ack_big (omega arith)

-- The same as a little-endian host reads them: the EtherType is not IPv4 on the wire, and the
-- flags stand in the other order. The ACK counts up the number as it stands on the wire.
abbrev pub syn_little : List ℕ
syn_little = link 0 8 (ip (tcp 0 0 0 0 0x50 64))

abbrev pub ack_little : List ℕ
ack_little = link 0 8 (ip (tcp 0 0x50 0x12 0x38 0x50 8))

-- The SYN bit of the wire, in a frame that a little-endian host takes for IPv4.
abbrev pub wire_syn_little : List ℕ
wire_syn_little = link 0 8 (ip (tcp 0 0 0 0 0x50 2))

-- A segment with RST and ACK.
abbrev pub rst_big : List ℕ
rst_big = link 8 0 (ip (tcp 0 0 0 0 0x50 20))

pub syn_little-IsBytes : IsBytes (byte_at syn_little)
syn_little-IsBytes = byte_at-IsBytes syn_little (omega arith)

pub ack_little-IsBytes : IsBytes (byte_at ack_little)
ack_little-IsBytes = byte_at-IsBytes ack_little (omega arith)

pub wire_syn_little-IsBytes : IsBytes (byte_at wire_syn_little)
wire_syn_little-IsBytes = byte_at-IsBytes wire_syn_little (omega arith)

pub rst_big-IsBytes : IsBytes (byte_at rst_big)
rst_big-IsBytes = byte_at-IsBytes rst_big (omega arith)

-- A segment with PSH and ACK, the first of the connection with data.
abbrev pub data_big : List ℕ
data_big = link 8 0 (ip (tcp 0x12 0x34 0 0x54 0x50 24))

pub data_big-IsBytes : IsBytes (byte_at data_big)
data_big-IsBytes = byte_at-IsBytes data_big (omega arith)
