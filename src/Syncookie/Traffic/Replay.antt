-- ===== src/Syncookie/Traffic/Replay.antt =====
-- What the filter is, seen from outside: a machine over packets, whose state is the list of the keys
-- under which the table was updated.
use syncookie_xdp.Prelude.{
  ℕ, ◌≡◌, ◌≢◌, inl, inr, refl, ap, sym, ◌∙◌, Bool, true, false, ◌||◌, Bool-cases, Option, none,
  some, Option-cases, List, [], ◌∷◌, if◌then◌else◌,
}
use syncookie_xdp.Packet.{Endian}
use syncookie_xdp.Machine.{KernelMap, State, Run, ok}
use syncookie_xdp.Headers.{connection_bytes}
use syncookie_xdp.Controller.{XdpAction, xdp_drop, xdp_pass, xdp_tx, insert, bpf_any}
use syncookie_xdp.Controller.Layout.{connection}
use syncookie_xdp.Controller.Decision.{
  Decision, pass_on, refuse, answer, accept, decide, decide_new, carry_out, known,
}
use syncookie_xdp.Controller.Cases.{decide-pass_iff}
use syncookie_xdp.Syncookie.{syncookie_fn}
use syncookie_xdp.Syncookie.Entry.{IsTcp, is_tcp, is_tcp_iff, entry-other}
use syncookie_xdp.Syncookie.Outcome.{syncookie_fn-decide}
use syncookie_xdp.Syncookie.Traffic.{Frame, Verdict, arrived, handle_frames, IsWhole}
use syncookie_xdp.Syncookie.Traffic.Table.{AllFrames, handled}

-- A packet as the filter sees it, with the bytes that its connection is looked up under: no TCP, a SYN
-- alone, an ACK alone that acknowledges the cookie, with the key of its update, or anything else.
pub data Packet : Type 0 where
  no_tcp : Packet
  syn other : List ℕ → Packet
  cookie_ack : List ℕ → List ℕ → Packet

-- Whether an update under the first key is found under the second.
abbrev pub Covers : Type 0
Covers = List ℕ → List ℕ → Bool

abbrev pub is_known : Covers → List (List ℕ) → List ℕ → Bool
is_known covers [] key = false
is_known covers (k ∷ log) key = covers k key || is_known covers log key

abbrev pub step : Covers → Packet → List (List ℕ) → XdpAction × List (List ℕ)
step covers no_tcp log = (xdp_pass, log)
step covers (syn key) log = (if is_known covers log key then xdp_pass else xdp_tx, log)
step covers (other key) log = (if is_known covers log key then xdp_pass else xdp_drop, log)
step covers (cookie_ack key k) log =
    if is_known covers log key then (xdp_pass, log) else (xdp_tx, k ∷ log)

abbrev pub replay : Covers → List Packet → List (List ℕ) → List XdpAction × List (List ℕ)
replay covers [] log = ([], log)
replay covers (p ∷ ps) log =
    let (action, next) = step covers p log in
    let (actions, end) = replay covers ps next in (action ∷ actions, end)

abbrev pub is_there : Option ℕ → Bool
is_there none = false
is_there (some _) = true

abbrev pub actions : List Verdict → List XdpAction
actions [] = []
actions (v ∷ vs) = v.action ∷ actions vs

module _ (e : Endian) where
  abbrev pub key_of : Frame → List ℕ
  key_of f = connection_bytes e (connection e f.mem)

  abbrev segment : Decision → List ℕ → List ℕ → Packet
  segment answer key slot = syn key
  segment accept key slot = cookie_ack key slot
  segment refuse key slot = other key
  segment pass_on key slot = other key

  -- What the frame is, by its bytes.
  abbrev pub packet_of : Frame → Packet
  packet_of f =
      if is_tcp e (record { len = f.len; mem = f.mem; table = tt })
      then segment (decide_new e f.mem) (key_of f) f.slot
      else no_tcp

  abbrev pub packets_of : List Frame → List Packet
  packets_of [] = []
  packets_of (f ∷ fs) = packet_of f ∷ packets_of fs

  module _ (M : KernelMap) (covers : Covers) where
    abbrev pub found : M.Table → List ℕ → Bool
    found t key = is_there (M.lookup t key)

    -- What the kernel documents of a map that is not full: an update is found under the keys that it
    -- covers, and all else is found as before.
    pub record IsMap : Type 0 where
      pub found-update :
          (t : M.Table) (k key : List ℕ) (value flags : ℕ)
          → found (M.update t k value flags) key ≡ (covers k key || found t key)

    -- The table holds what the list says.
    pub record IsShown (t : M.Table) (log : List (List ℕ)) : Type 0 where
      pub shown : (key : List ℕ) → found t key ≡ is_known covers log key

    module _ (is_map : IsMap) where
      -- The program does on a frame what the machine does on the packet.
      abbrev Follows : Frame → M.Table → List (List ℕ) → XdpAction × List (List ℕ) → Type 0
      Follows f t log next =
          (s : State M.Table) × (syncookie_fn M e f.slot (arrived M e f t) ≡ ok next.0 s)
          × IsShown s.table next.1

      Follows-known :
          (f : Frame) (t : M.Table) (log : List (List ℕ))
          → IsShown t log
          → is_known covers log (key_of f) ≡ true
          → syncookie_fn M e f.slot (arrived M e f t) ≡ ok xdp_pass (arrived M e f t)
          → (d : Decision) → Follows f t log (step covers (segment d (key_of f) f.slot) log)
      Follows-known f t log shows in_log run pass_on = rw in_log (arrived M e f t, run, shows)
      Follows-known f t log shows in_log run refuse = rw in_log (arrived M e f t, run, shows)
      Follows-known f t log shows in_log run answer = rw in_log (arrived M e f t, run, shows)
      Follows-known f t log shows in_log run accept = rw in_log (arrived M e f t, run, shows)

      update-IsShown :
          (t : M.Table) (log : List (List ℕ)) (k : List ℕ) (value flags : ℕ)
          → IsShown t log
          → IsShown (M.update t k value flags) (k ∷ log)
      update-IsShown t log k value flags shows = record {
        shown = λ key.
            is_map.found-update t k key value flags ∙ ap (◌||◌ (covers k key)) (shows.shown key);
      }

      Follows-new :
          (f : Frame) (t : M.Table) (log : List (List ℕ))
          → IsShown t log
          → is_known covers log (key_of f) ≡ false
          → (d : Decision) → d ≢ pass_on
          → syncookie_fn M e f.slot (arrived M e f t) ≡ carry_out M e f.slot d (arrived M e f t)
          → Follows f t log (step covers (segment d (key_of f) f.slot) log)
      Follows-new f t log shows new pass_on never run = absurd (never refl)
      Follows-new f t log shows new refuse never run = rw new (arrived M e f t, run, shows)
      Follows-new f t log shows new answer never run =
          rw new (_, run, record { shown = shows.shown })
      Follows-new f t log shows new accept never run =
          rw new (_, run, update-IsShown t log f.slot insert bpf_any shows)

      Follows-segment :
          (f : Frame) (t : M.Table) (log : List (List ℕ))
          → IsWhole e f
          → IsShown t log
          → IsTcp e (record { len = f.len; mem = f.mem; table = tt })
          → Follows f t log (step covers (segment (decide_new e f.mem) (key_of f) f.slot) log)
      Follows-segment f t log whole shows tcp =
          let here : IsTcp e (arrived M e f t) = record {
            fits = tcp.fits;
            ether_type = tcp.ether_type;
            protocol = tcp.protocol;
          } in
          let run =
            syncookie_fn-decide M e f.slot (arrived M e f t) whole.bytes here
              (whole.complete tcp) in
          let decided : Option ℕ → Run M.Table XdpAction =
            λ o. carry_out M e f.slot (decide o e f.mem) (arrived M e f t) in
          elim (Option-cases (known M e (arrived M e f t))) [
            | inr (v, in_table) ↦
                Follows-known f t log shows (sym (shows.shown (key_of f)) ∙ ap is_there in_table)
                  (run ∙ ap decided in_table) (decide_new e f.mem)
            | inl missing ↦
                Follows-new f t log shows (sym (shows.shown (key_of f)) ∙ ap is_there missing)
                  (decide_new e f.mem) (λ never. (decide-pass_iff e f.mem none).0 never refl)
                  (run ∙ ap decided missing)
          ]

      frame-step :
          (f : Frame) (t : M.Table) (log : List (List ℕ))
          → IsWhole e f
          → IsShown t log
          → Follows f t log (step covers (packet_of f) log)
      frame-step f t log whole shows =
          elim (Bool-cases (is_tcp e (record { len = f.len; mem = f.mem; table = tt }))) [
            | inl is_one ↦ rw is_one (
                Follows-segment f t log whole shows
                  ((is_tcp_iff e (record { len = f.len; mem = f.mem; table = tt })).0 is_one))
            | inr is_none ↦ rw is_none (
              arrived M e f t,
              entry-other M e f.slot (arrived M e f t) (λ tcp.
                  let is_one : is_tcp e (arrived M e f t) ≡ true =
                    (is_tcp_iff e (arrived M e f t)).1 tcp in
                  let wrong : true ≡ false = sym is_one ∙ is_none in cc),
              shows,
            )
          ]

      -- On any stream of frames that are no truncated TCP packets, the program returns for each what the
      -- machine says, and the table holds what the list of the machine says. This is for a map in which an
      -- update is found under the keys that it covers, and changes nothing else, so one that is not full.
      pub handle_frames-replay :
          (fs : List Frame) (t : M.Table) (log : List (List ℕ))
          → AllFrames (IsWhole e) fs
          → IsShown t log
          → (verdicts : List Verdict) × (t' : M.Table) × (handle_frames M e fs t
              ≡ some (verdicts, t'))
            × (actions verdicts ≡ (replay covers (packets_of fs) log).0)
            × IsShown t' (replay covers (packets_of fs) log).1
      unfolding handle_frames
      handle_frames-replay [] t log whole shows = ([], t, refl, refl, shows)
      handle_frames-replay (f ∷ fs) t log (first, others) shows =
          let (s, run, next) = frame-step f t log first shows in
          let action = (step covers (packet_of f) log).0 in
          let (verdicts, t', rest, same, end) =
            handle_frames-replay fs s.table (step covers (packet_of f) log).1 others next in
          (
            record { action = action; mem = s.mem } ∷ verdicts,
            t',
            handled M e f fs t t' action s verdicts run rest,
            ap (◌∷◌ action) same,
            end,
          )
