-- ===== src/Syncookie/Wire.antt =====
-- The header fields as the wire orders them (RFC 791, RFC 793), against what the host reads. The
-- filter compares and counts with no call of bpf_ntohs or bpf_ntohl, and its bit-fields stand in
-- the order of a big-endian host.
use syncookie_xdp.Prelude.{
  ℕ, ◌/◌, ◌%◌, ◌≤◌, ◌≡◌, ◌≢◌, ◌⊎◌, inl, inr, List, [], ◌∷◌, none, false, arith, false,
}
use syncookie_xdp.Packet.{little, big, Mem, get16}
use syncookie_xdp.Machine.{KernelMap, State, ok}
use syncookie_xdp.Controller.{xdp_pass, xdp_drop, xdp_tx, cookie_of}
use syncookie_xdp.Controller.Layout.{headers_size, IsBytes, other_flags, connection}
use syncookie_xdp.Controller.Decision.{has_one, known}
use syncookie_xdp.Controller.Cases.{IsSyn, IsCookieAck}
use syncookie_xdp.Syncookie.{eth_p_ip, ipproto_tcp, syncookie_fn}
use syncookie_xdp.Syncookie.Entry.{IsTcp, entry-other}
use syncookie_xdp.Syncookie.Outcome.{syncookie_fn-drop_iff}
use syncookie_xdp.Syncookie.Replies.{syncookie_fn-answer}
use syncookie_xdp.Controller.Syn.{IsSynAck}

-- None of the values is 1.
abbrev NoOne : List ℕ → Type 0
NoOne [] = Unit
NoOne (v ∷ vs) = (v ≢ 1) × NoOne vs

has_one-false : (vs : List ℕ) → has_one vs ≡ false → NoOne vs
has_one-false [] h = tt
has_one-false (v ∷ vs) h = (ground arith, has_one-false vs (ground arith))

-- The EtherType of the frame is IPv4.
abbrev pub IsIpv4Frame : Mem → Type 0
IsIpv4Frame m = get16 big m 12 ≡ eth_p_ip

-- On a little-endian host the program passes every IPv4 frame on unchanged, whatever it carries.
pub ipv4_passes_little :
    (M : KernelMap) (slot : List ℕ) (s : State M.Table)
    → IsBytes s.mem
    → IsIpv4Frame s.mem
    → syncookie_fn M little slot s ≡ ok xdp_pass s
ipv4_passes_little M slot s bytes frame =
    entry-other M little slot s λ tcp. omega (arith, tcp.ether_type, bytes 12, bytes 13)

-- The TCP flags of RFC 793 in the byte that holds them.
abbrev pub wire_syn : Mem → ℕ
wire_syn m = m 47 / 2 % 2

abbrev pub wire_ack : Mem → ℕ
wire_ack m = m 47 / 16 % 2

no_others_little :
    (m : Mem) → has_one (other_flags little m) ≡ false → (wire_syn m ≢ 1) × (wire_ack m ≢ 1)
no_others_little m h =
    let none_one = has_one-false (other_flags little m) h in (none_one.1.1.0, none_one.1.1.1.1.0)

-- On a little-endian host a set SYN bit is read as ECE and a set ACK bit as PSH, so a packet that
-- has either is neither a SYN nor an ACK for the filter.
pub no_handshake_little :
    (m : Mem) → (wire_syn m ≡ 1) ⊎ (wire_ack m ≡ 1) → (¬ IsSyn little m) × ¬ IsCookieAck little m
no_handshake_little m set =
    (λ h. clash set (no_others_little m h.others), λ h. clash set (no_others_little m h.others))
  where
    clash : (wire_syn m ≡ 1) ⊎ (wire_ack m ≡ 1) → (wire_syn m ≢ 1) × (wire_ack m ≢ 1) → ⊥
    clash (inl p) n = n.0 p
    clash (inr p) n = n.1 p

-- So on a little-endian host a complete packet that the filter takes for TCP, by an EtherType in the
-- bytes 00 08 that no IPv4 frame has, of a connection that is not in the table, is dropped if the SYN
-- bit or the ACK bit of the wire is set.
pub handshake_dropped_little :
    (M : KernelMap) (slot : List ℕ) (s : State M.Table)
    → IsBytes s.mem
    → IsTcp little s
    → headers_size ≤ s.len
    → known M little s ≡ none
    → (wire_syn s.mem ≡ 1) ⊎ (wire_ack s.mem ≡ 1)
    → syncookie_fn M little slot s ≡ ok xdp_drop s
handshake_dropped_little M slot s bytes tcp fits unknown set =
    let no = no_handshake_little s.mem set in
    (syncookie_fn-drop_iff M little slot s bytes).1 (tcp, fits, unknown, no.0, no.1)

-- On a big-endian host the host's order is the wire's: a byte of flags that is SYN alone is read
-- as SYN alone.
wire-IsSyn_big : (m : Mem) → m 47 ≡ 2 → m 46 % 16 ≢ 1 → IsSyn big m
wire-IsSyn_big m flags reserved = record {
  others = ground arith;
  syn = omega arith;
  no_ack = ground arith;
}

-- On a big-endian host the SYN of an unknown connection in an IPv4 frame with a TCP segment is
-- answered by a SYN-ACK.
pub syn_answered_big :
    (M : KernelMap) (slot : List ℕ) (s : State M.Table)
    → IsBytes s.mem
    → IsIpv4Frame s.mem
    → s.mem 23 ≡ ipproto_tcp
    → headers_size ≤ s.len
    → known M big s ≡ none
    → s.mem 47 ≡ 2
    → s.mem 46 % 16 ≢ 1
    → (m' : Mem) × (syncookie_fn M big slot s ≡ ok xdp_tx (record s { mem = m' }))
      × IsSynAck big (cookie_of (connection big s.mem)) s.mem m'
syn_answered_big M slot s bytes frame protocol fits unknown flags reserved =
    let tcp : IsTcp big s = record {
      fits = omega arith;
      ether_type = frame;
      protocol = protocol;
    } in
    syncookie_fn-answer M big slot s bytes tcp fits unknown (wire-IsSyn_big s.mem flags reserved)
