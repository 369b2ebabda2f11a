-- ===== src/Tests/Traffic.antt =====
-- A stream of frames on a big-endian host: a segment with RST, and a SYN, between a SYN and its ACK.
use mathlib.Core.List.{Sublistᴰ}
use syncookie_xdp.Prelude.{
  none, Option, ℕ, ◌≢◌, none_ne_some, Bool-cases, inl, inr, sym, ◌≡◌, ◌⊎◌, refl, List, [], ◌∷◌,
  some, arith,
}
use syncookie_xdp.Packet.{big, Mem}
use syncookie_xdp.Machine.{State, ok}
use syncookie_xdp.Controller.{xdp_tx, xdp_pass, xdp_drop, cookie_of, insert, bpf_any}
use syncookie_xdp.Controller.Layout.{seq_no, connection}
use syncookie_xdp.Controller.Decision.{known}
use syncookie_xdp.Controller.Cases.{IsSyn, IsCookieAck}
use syncookie_xdp.Controller.Reply.{syn_reply}
use syncookie_xdp.Syncookie.{syncookie_fn}
use syncookie_xdp.Syncookie.Outcome.{syncookie_fn-decide}
use syncookie_xdp.Syncookie.Replies.{answered}
use syncookie_xdp.Syncookie.Handshake.{IsNew}
use syncookie_xdp.Syncookie.Traffic.{Frame, Verdict, handle_frames, IsWhole}
use syncookie_xdp.Syncookie.Traffic.Table.{
  AllFrames, updates, handle_frames-updates, handle_frames-flood,
}
use syncookie_xdp.Syncookie.Traffic.Known.{
  IsKeeping, IsOtherKey, IsFollowed, handle_frames-pass, handle_frames-drop,
}
use syncookie_xdp.Headers.{connection_bytes}
use syncookie_xdp.Syncookie.Traffic.Handshake.{IsAnswerTo, IsAccepted, IsPassed, handshake-let_in}
use syncookie_xdp.Tests.Packets.{
  exact_map, data_big, data_big-IsBytes, same_key, empty, state, byte_at, syn_big, ack_big, rst_big,
  syn_big-IsBytes, ack_big-IsBytes, rst_big-IsBytes,
}

abbrev pub frame : List ℕ → Frame
frame bytes = record { len = 54; mem = byte_at bytes; slot = 1 ∷ [] }

abbrev state_with : (List ℕ → Option ℕ) → List ℕ → State exact_map.Table
state_with t bytes = record { len = 54; mem = byte_at bytes; table = t }

abbrev flood : List Frame
flood = frame rst_big ∷ frame syn_big ∷ []

pub flood-IsWhole : AllFrames (IsWhole big) flood
flood-IsWhole = (
  record { bytes = rst_big-IsBytes; complete = λ tcp. omega arith },
  (record { bytes = syn_big-IsBytes; complete = λ tcp. omega arith }, tt),
)

pub ack-IsWhole : IsWhole big (frame ack_big)
ack-IsWhole = record { bytes = ack_big-IsBytes; complete = λ tcp. omega arith }

-- Neither has the number of a cookie's ACK.
flood-not_ack : AllFrames (λ f. ¬ IsCookieAck big f.mem) flood
flood-not_ack = (λ a. let n = a.others in cc, (λ a. let n = a.ack in omega arith, tt))

handle_frames-updates_example :
    (verdicts : List Verdict) × (acks : List Frame) × (handle_frames exact_map big
        (frame ack_big ∷ flood)
        empty
      ≡ some (verdicts, updates exact_map big acks empty))
    × Sublistᴰ acks (frame ack_big ∷ flood)
    × AllFrames (λ f. IsCookieAck big f.mem) acks
handle_frames-updates_example =
    handle_frames-updates exact_map big (frame ack_big ∷ flood) empty (ack-IsWhole, flood-IsWhole)

handle_frames-flood_example :
    (verdicts : List Verdict) × (handle_frames exact_map big flood empty ≡ some (verdicts, empty))
handle_frames-flood_example =
    handle_frames-flood exact_map big flood empty flood-IsWhole flood-not_ack

abbrev first : State exact_map.Table
first = state 54 syn_big

first-IsNew : IsNew exact_map big first
first-IsNew = record {
  bytes = syn_big-IsBytes;
  tcp = omega arith;
  fits = omega arith;
  unknown = refl;
}

first-IsSyn : IsSyn big first.mem
first-IsSyn = record { others = refl; syn = refl; no_ack = ground arith }

run_first : syncookie_fn exact_map big [] first ≡ ok xdp_tx (answered exact_map big [] first)
unfolding cookie_of
run_first = syncookie_fn-decide exact_map big [] first syn_big-IsBytes (omega arith) (omega arith)

carried : seq_no big (answered exact_map big [] first).mem ≡ 0x12340053
unfolding syn_reply cookie_of
carried = refl

ack-IsAnswerTo : IsAnswerTo exact_map big first (answered exact_map big [] first) (frame ack_big)
ack-IsAnswerTo = record {
  bytes = ack_big-IsBytes;
  tcp = omega arith;
  fits = omega arith;
  flags = record { others = refl; no_syn = ground arith; ack = refl };
  same = refl;
  number = omega (arith, carried);
}

handshake-let_in_example :
    (verdicts : List Verdict) × (t : exact_map.Table) × (handle_frames exact_map big flood empty
      ≡ some (verdicts, t))
    × (IsAccepted exact_map big (frame ack_big) t ⊎ IsPassed exact_map big (frame ack_big) t)
handshake-let_in_example =
    handshake-let_in exact_map big [] first (answered exact_map big [] first) flood (frame ack_big)
      first-IsNew first-IsSyn run_first flood-IsWhole ack-IsAnswerTo

exact_map-IsKeeping : IsKeeping exact_map
exact_map-IsKeeping = record {
  kept = λ t k k' value flags there. elim (Bool-cases (same_key k k')) [
    | inl same ↦ rw same (λ e. none_ne_some (sym e))
    | inr other ↦ rw other there
  ];
}

abbrev pub key : List ℕ
key = connection_bytes big (connection big (byte_at ack_big))

abbrev with_key : List ℕ → Option ℕ
with_key = exact_map.update empty key insert bpf_any

pub data-IsWhole : IsWhole big (frame data_big)
data-IsWhole = record { bytes = data_big-IsBytes; complete = λ tcp. omega arith }

with_key-there : known exact_map big (state_with with_key data_big) ≢ none
unfolding connection_bytes
with_key-there e = none_ne_some (sym e)

handle_frames-pass_example :
    (verdicts : List Verdict) × (t : exact_map.Table) × (handle_frames exact_map big flood with_key
      ≡ some (verdicts, t))
    × (syncookie_fn exact_map big (1 ∷ []) (state_with t data_big)
        ≡ ok xdp_pass (state_with t data_big))
handle_frames-pass_example =
    handle_frames-pass exact_map big exact_map-IsKeeping flood with_key (frame data_big)
      flood-IsWhole data-IsWhole with_key-there

-- No update under the one byte 1 is an update of the connection.
whole-IsOtherKey :
    (bytes : List ℕ) → IsWhole big (frame bytes) → IsOtherKey exact_map big key (frame bytes)
unfolding connection_bytes
whole-IsOtherKey bytes whole = record { whole = whole; aside = λ t. refl }

flood-IsOtherKey : AllFrames (IsOtherKey exact_map big key) flood
flood-IsOtherKey =
    (whole-IsOtherKey rst_big flood-IsWhole.0, (whole-IsOtherKey syn_big flood-IsWhole.1.0, tt))

data-IsFollowed : IsFollowed exact_map big (frame ack_big) (frame data_big)
unfolding cookie_of
data-IsFollowed = record {
  tcp = omega arith;
  brings = record { others = refl; no_syn = ground arith; ack = refl; number = refl };
  next_tcp = omega arith;
  same = refl;
  no_syn = λ a. let n = a.others in cc;
  no_ack = λ a. let n = a.others in cc;
}

handle_frames-drop_example :
    (v₁ v₂ : List Verdict) × (t₁ t₂ : exact_map.Table) × (reply : Mem) × (handle_frames exact_map
        big flood empty
      ≡ some (v₁, t₁))
    × (syncookie_fn exact_map big (1 ∷ []) (state_with t₁ ack_big)
        ≡ ok xdp_tx
            (record { len = 54; mem = reply; table = exact_map.update t₁ (1 ∷ []) insert bpf_any }))
    × (handle_frames exact_map big flood (exact_map.update t₁ (1 ∷ []) insert bpf_any)
        ≡ some (v₂, t₂))
    × (syncookie_fn exact_map big (1 ∷ []) (state_with t₂ data_big)
        ≡ ok xdp_drop (state_with t₂ data_big))
handle_frames-drop_example =
    handle_frames-drop exact_map big flood flood (frame ack_big) (frame data_big) empty
      flood-IsOtherKey (whole-IsOtherKey ack_big ack-IsWhole) flood-IsOtherKey data-IsWhole
      data-IsFollowed refl
