-- ===== src/Tests/Little.antt =====
-- The program on a little-endian host.
use syncookie_xdp.Prelude.{◌≡◌, inl, refl, [], arith}
use syncookie_xdp.Packet.{little, big, get32}
use syncookie_xdp.Machine.{State, ok}
use syncookie_xdp.Controller.{xdp_drop, xdp_pass, xdp_tx, cookie_of}
use syncookie_xdp.Controller.Layout.{connection}
use syncookie_xdp.Controller.Reply.{syn_reply}
use syncookie_xdp.Syncookie.{syncookie_fn}
use syncookie_xdp.Syncookie.Outcome.{syncookie_fn-decide}
use syncookie_xdp.Syncookie.Replies.{answered}
use syncookie_xdp.Syncookie.Handshake.{IsNew, handshake-drop_little}
use syncookie_xdp.Syncookie.Wire.{ipv4_passes_little, handshake_dropped_little}
use syncookie_xdp.Tests.Packets.{
  exact_map, state, syn_big, syn_little, ack_little, wire_syn_little, syn_big-IsBytes,
  syn_little-IsBytes, ack_little-IsBytes, wire_syn_little-IsBytes,
}

abbrev syn_state : State exact_map.Table
syn_state = state 54 syn_little

abbrev ack_state : State exact_map.Table
ack_state = state 54 ack_little

syn-IsNew : IsNew exact_map little syn_state
syn-IsNew = record {
  bytes = syn_little-IsBytes;
  tcp = omega arith;
  fits = omega arith;
  unknown = refl;
}

ack-IsNew : IsNew exact_map little ack_state
ack-IsNew = record {
  bytes = ack_little-IsBytes;
  tcp = omega arith;
  fits = omega arith;
  unknown = refl;
}

run_syn :
    syncookie_fn exact_map little [] syn_state ≡ ok xdp_tx (answered exact_map little [] syn_state)
unfolding cookie_of
run_syn =
    syncookie_fn-decide exact_map little [] syn_state syn_little-IsBytes (omega arith) (omega arith)

cookie : cookie_of (connection little syn_state.mem) ≡ 0x37125000
unfolding cookie_of
cookie = refl

reply_number : get32 big (answered exact_map little [] syn_state).mem 38 ≡ 0x00501237
unfolding syn_reply cookie_of
reply_number = refl

handshake-drop_little_example : syncookie_fn exact_map little [] ack_state ≡ ok xdp_drop ack_state
handshake-drop_little_example =
    handshake-drop_little exact_map [] syn_state (answered exact_map little [] syn_state) ack_state
      syn-IsNew (record { others = refl; syn = refl; no_ack = ground arith }) run_syn ack-IsNew
      (record { others = refl; no_syn = ground arith; ack = refl }) refl
      (omega (arith, reply_number)) (omega (arith, cookie))

ipv4_passes_little_example :
    syncookie_fn exact_map little [] (state 54 syn_big) ≡ ok xdp_pass (state 54 syn_big)
ipv4_passes_little_example = ipv4_passes_little exact_map [] (state 54 syn_big) syn_big-IsBytes refl

handshake_dropped_little_example :
    syncookie_fn exact_map little [] (state 54 wire_syn_little)
    ≡ ok xdp_drop (state 54 wire_syn_little)
handshake_dropped_little_example =
    handshake_dropped_little exact_map [] (state 54 wire_syn_little) wire_syn_little-IsBytes
      (omega arith) (omega arith) refl (inl refl)
