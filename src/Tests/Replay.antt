-- ===== src/Tests/Replay.antt =====
-- A SYN, the ACK of its cookie and a segment with data, and the machine that says what becomes of them.
use syncookie_xdp.Prelude.{◌≡◌, refl, List, [], ◌∷◌, some, Bool-cases, inl, inr}
use syncookie_xdp.Packet.{big}
use syncookie_xdp.Headers.{connection_bytes}
use syncookie_xdp.Controller.{xdp_tx, xdp_drop, xdp_pass, cookie_of}
use syncookie_xdp.Syncookie.Traffic.{Frame, Verdict, handle_frames, IsWhole}
use syncookie_xdp.Syncookie.Traffic.Table.{AllFrames}
use syncookie_xdp.Syncookie.Traffic.Replay.{
  Covers, IsMap, IsShown, replay, packets_of, actions, handle_frames-replay,
}
use syncookie_xdp.Tests.Packets.{exact_map, same_key, empty, syn_big, ack_big, data_big, byte_at}
use syncookie_xdp.Tests.Traffic.{frame, flood-IsWhole, ack-IsWhole, data-IsWhole, key}

abbrev covers : Covers
covers k wanted = same_key wanted k

exact_map-IsMap : IsMap big exact_map covers
exact_map-IsMap = record {
  found-update = λ t k wanted value flags. elim (Bool-cases (same_key wanted k)) [
    | inl same ↦ rw same refl
    | inr different ↦ rw different refl
  ];
}

abbrev stream : List Frame
stream = frame syn_big ∷ frame ack_big ∷ frame data_big ∷ []

stream-IsWhole : AllFrames (IsWhole big) stream
stream-IsWhole = (flood-IsWhole.1.0, (ack-IsWhole, (data-IsWhole, tt)))

handle_frames-replay_example :
    (verdicts : List Verdict) × (t : exact_map.Table) × (handle_frames exact_map big stream empty
      ≡ some (verdicts, t))
    × (actions verdicts ≡ (replay covers (packets_of big stream) []).0)
    × IsShown big exact_map covers t (replay covers (packets_of big stream) []).1
handle_frames-replay_example =
    handle_frames-replay big exact_map covers exact_map-IsMap stream empty [] stream-IsWhole
      (record { shown = λ wanted. refl })

-- Under the byte 1 the update is of no connection, so the data is dropped.
run_replay :
    replay covers (packets_of big stream) [] ≡ (xdp_tx ∷ xdp_tx ∷ xdp_drop ∷ [], (1 ∷ []) ∷ [])
unfolding connection_bytes cookie_of
run_replay = refl

-- Under the key of the connection it would be passed on.
run_own_key :
    (replay covers
      (packets_of big (
        frame syn_big
        ∷ record { len = 54; mem = byte_at ack_big; slot = key }
        ∷ frame data_big
        ∷ []))
      []).0
    ≡ xdp_tx ∷ xdp_tx ∷ xdp_pass ∷ []
unfolding connection_bytes cookie_of
run_own_key = refl
