-- ===== src/Syncookie/Traffic.antt =====
-- The entry program on one frame after another, as the kernel calls it, with the table in between.
pub mod Table
pub mod Handshake
pub mod Known
pub mod Replay
pub mod Trie
use syncookie_xdp.Prelude.{ℕ, ◌≤◌, ◌<◌, ◌≡◌, List, [], ◌∷◌, Option, none, some}
use syncookie_xdp.Packet.{Endian, Mem}
use syncookie_xdp.Machine.{KernelMap, State, Run, ok, fault}
use syncookie_xdp.Controller.{XdpAction}
use syncookie_xdp.Controller.Layout.{headers_size, IsBytes}
use syncookie_xdp.Syncookie.{syncookie_fn}
use syncookie_xdp.Syncookie.Entry.{IsTcp}

-- What arrives: the bytes of the frame. What stands at `&connection` in the call may differ from
-- one to the next.
pub record Frame : Type 0 where
  pub len : ℕ
  pub mem : Mem
  pub slot : List ℕ

-- What the kernel gets back: the action, and the bytes of the frame behind the call.
pub record Verdict : Type 0 where
  pub action : XdpAction
  pub mem : Mem

module _ (M : KernelMap) (e : Endian) where
  abbrev pub arrived : Frame → M.Table → State M.Table
  arrived f t = record { len = f.len; mem = f.mem; table = t }

  -- `none` where the program makes an invalid access.
  unfoldable pub handle_frames : List Frame → M.Table → Option (List Verdict × M.Table)
  handle_frames [] t = some ([], t)
  handle_frames (f ∷ fs) t = elim (syncookie_fn M e f.slot (arrived f t)) [
    | fault ↦ none
    | ok action s ↦ elim (handle_frames fs s.table) [
      | none ↦ none
      | some (verdicts, t') ↦ some (record { action = action; mem = s.mem } ∷ verdicts, t')
    ]
  ]

-- A frame of bytes that is no TCP packet, or holds its TCP header.
pub record IsWhole (e : Endian) (f : Frame) : Type 0 where
  pub bytes : IsBytes f.mem
  pub complete : IsTcp e (record { len = f.len; mem = f.mem; table = tt }) → headers_size ≤ f.len
