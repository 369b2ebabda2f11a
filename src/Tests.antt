-- ===== src/Tests.antt =====
-- Runs of the program on concrete packets, and the theorems at inputs that meet their hypotheses.
mod Packets
mod Little
mod Stats
mod Attach
mod Loader
mod Vlan
mod Helpers
mod CommandLine
mod StatsProgram
mod PinnedMaps
mod Sessions
mod Traffic
mod Order
mod Tags
mod Replay
mod Names
mod Trie
use syncookie_xdp.Prelude.{
  ℕ, ◌+◌, ◌%◌, ◌^◌, ◌≤◌, ◌<◌, ◌≡◌, ◌≢◌, ◌↔◌, ◌⊎◌, inl, inr, refl, List, [], ◌∷◌, none, some, arith,
}
use syncookie_xdp.Packet.{Mem, little, big, get32, get_bytes}
use syncookie_xdp.Machine.{State, ok, fault, null, at}
use syncookie_xdp.Headers.{Connection}
use syncookie_xdp.Headers.Ethernet
use syncookie_xdp.Headers.Ipv4
use syncookie_xdp.Headers.Tcp
use syncookie_xdp.Parser.{cursor, parse_ether, parse_ipv4, parse_tcphdr}
use syncookie_xdp.Parser.Bounds.{IsSafe, parsers-IsSafe}
use syncookie_xdp.Controller.{xdp_drop, xdp_pass, xdp_tx, cookie_of, insert, bpf_any}
use syncookie_xdp.Controller.Layout.{headers_size, IsBytes, connection, seq_no, src_port, dst_port}
use syncookie_xdp.Controller.Cookie.{IsConnection, cookie_of-iff-ports}
use syncookie_xdp.Controller.Decision.{decide, carry_out, known}
use syncookie_xdp.Controller.Cases.{IsSyn, IsCookieAck}
use syncookie_xdp.Controller.Syn.{IsSynAck}
use syncookie_xdp.Controller.Ack.{IsAck}
use syncookie_xdp.Syncookie.{syncookie_fn}
use syncookie_xdp.Syncookie.Entry.{IsTcp}
use syncookie_xdp.Syncookie.Outcome.{
  syncookie_fn-decide, syncookie_fn-fault_iff, syncookie_fn-pass_iff, syncookie_fn-drop_iff,
}
use syncookie_xdp.Syncookie.Replies.{
  syncookie_fn-answer, syncookie_fn-accept, syncookie_fn-table, syncookie_fn-IsPreserved,
  IsPreserved, answered, accepted,
}
use syncookie_xdp.Syncookie.Handshake.{IsNew, handshake-accept}
use syncookie_xdp.Controller.Reply.{syn_reply}
use Packets.{
  exact_map, empty, state, syn_big, ack_big, rst_big, syn_big-IsBytes, ack_big-IsBytes,
  rst_big-IsBytes,
}

abbrev syn_state : State exact_map.Table
syn_state = state 54 syn_big

abbrev ack_state : State exact_map.Table
ack_state = state 54 ack_big

syn-IsTcp : IsTcp big syn_state
syn-IsTcp = omega arith

ack-IsTcp : IsTcp big ack_state
ack-IsTcp = omega arith

first-IsSyn : IsSyn big syn_state.mem
first-IsSyn = record { others = refl; syn = refl; no_ack = ground arith }

ack-IsCookieAck : IsCookieAck big ack_state.mem
unfolding cookie_of
ack-IsCookieAck = record { others = refl; no_syn = ground arith; ack = refl; number = refl }

run_syn : syncookie_fn exact_map big [] syn_state ≡ ok xdp_tx (answered exact_map big [] syn_state)
unfolding cookie_of
run_syn = syncookie_fn-decide exact_map big [] syn_state syn_big-IsBytes syn-IsTcp (omega arith)

run_ack : syncookie_fn exact_map big [] ack_state ≡ ok xdp_tx (accepted exact_map big [] ack_state)
unfolding cookie_of
run_ack = syncookie_fn-decide exact_map big [] ack_state ack_big-IsBytes ack-IsTcp (omega arith)

-- The reply to the SYN goes to the sender's MAC address, carries the cookie, and is a SYN-ACK.
reply_bytes :
    (get_bytes (answered exact_map big [] syn_state).mem 0 12
      ≡ 7 ∷ 8 ∷ 9 ∷ 10 ∷ 11 ∷ 12 ∷ 7 ∷ 8 ∷ 9 ∷ 10 ∷ 11 ∷ 12 ∷ [])
    × (get_bytes (answered exact_map big [] syn_state).mem 34 14
        ≡ 0 ∷ 80 ∷ 0x12 ∷ 0x34 ∷ 0x12 ∷ 0x34 ∷ 0 ∷ 0x53 ∷ 0 ∷ 0 ∷ 0 ∷ 101 ∷ 0x50 ∷ 18 ∷ [])
unfolding syn_reply cookie_of
reply_bytes = (refl, refl)

syncookie_fn-decide_example :
    syncookie_fn exact_map big [] syn_state
    ≡ carry_out exact_map big []
        (decide (known exact_map big syn_state) big syn_state.mem)
        syn_state
syncookie_fn-decide_example =
    syncookie_fn-decide exact_map big [] syn_state syn_big-IsBytes syn-IsTcp (omega arith)

syncookie_fn-fault_iff_example :
    (syncookie_fn exact_map big [] (state 50 syn_big) ≡ fault)
    ↔ (IsTcp big (state 50 syn_big) × (50 < headers_size))
syncookie_fn-fault_iff_example =
    syncookie_fn-fault_iff exact_map big [] (state 50 syn_big) syn_big-IsBytes

syncookie_fn-answer_example :
    (m' : Mem) × (syncookie_fn exact_map big [] syn_state
      ≡ ok xdp_tx (record syn_state { mem = m' }))
    × IsSynAck big (cookie_of (connection big syn_state.mem)) syn_state.mem m'
syncookie_fn-answer_example =
    syncookie_fn-answer exact_map big [] syn_state syn_big-IsBytes syn-IsTcp (omega arith) refl
      first-IsSyn

syncookie_fn-accept_example :
    (m' : Mem) × (syncookie_fn exact_map big [] ack_state
      ≡ ok xdp_tx (record ack_state {
        mem = m';
        table = exact_map.update ack_state.table [] insert bpf_any;
      }))
    × IsAck big ack_state.mem m'
syncookie_fn-accept_example =
    syncookie_fn-accept exact_map big [] ack_state ack_big-IsBytes ack-IsTcp (omega arith) refl
      ack-IsCookieAck

syncookie_fn-IsPreserved_example : IsPreserved syn_state (answered exact_map big [] syn_state)
syncookie_fn-IsPreserved_example =
    syncookie_fn-IsPreserved exact_map big [] syn_state syn_big-IsBytes run_syn

cookie_of-iff-ports_example :
    (cookie_of (connection big syn_state.mem) ≡ cookie_of (connection big ack_state.mem))
    ↔ ((0x1234 ≡ src_port big ack_state.mem) × (80 ≡ dst_port big ack_state.mem))
cookie_of-iff-ports_example =
    cookie_of-iff-ports (connection big syn_state.mem) (connection big ack_state.mem) (omega arith)
      (omega arith) (inl (refl, refl))

parsers-IsSafe_example :
    IsSafe syn_state
      (cursor 14)
      (some null)
      Ethernet.size
      (parse_ether big (cursor 14) (some null) syn_state)
    × IsSafe syn_state
        (cursor 14)
        (some null)
        Ipv4.size
        (parse_ipv4 (cursor 14) (some null) syn_state)
    × IsSafe syn_state
        (cursor 14)
        (some null)
        Tcp.size
        (parse_tcphdr (cursor 14) (some null) syn_state)
parsers-IsSafe_example = parsers-IsSafe big syn_state (cursor 14) (some null)
