-- ===== src/Tests/Trie.antt =====
-- A trie, and two ACKs of a cookie whose updates are under the key of their connection, from 10.0.0.1.
use syncookie_xdp.Prelude.{
  inr, ◌-◌, ◌/◌, ◌^◌, ◌==◌, ◌&&◌, leb, ltb, ℕ, ◌≡◌, refl, List, [], ◌∷◌, some, none, Bool, false,
  arith, if◌then◌else◌,
}
use syncookie_xdp.Packet.{Endian, big}
use syncookie_xdp.Machine.{KernelMap}
use syncookie_xdp.Syncookie.Traffic.{Frame, Verdict, handle_frames}
use syncookie_xdp.Syncookie.Traffic.Replay.{Covers, is_known}
use syncookie_xdp.Syncookie.Traffic.Trie.{prefixlen, IsTrie, IsRefused, handle_frames-IsRefused}
use syncookie_xdp.Tests.Packets.{ack_big, ack_big-IsBytes, byte_at}
use syncookie_xdp.Tests.Traffic.{key}

abbrev behind_prefixlen : List ℕ → List ℕ
behind_prefixlen (a ∷ b ∷ c ∷ d ∷ rest) = rest
behind_prefixlen _ = []

-- The first `n` bits of two keys are the same.
abbrev same_bits : ℕ → List ℕ → List ℕ → Bool
same_bits n (a ∷ as') (b ∷ bs) =
    let rest = same_bits (n - 8) as' bs in
    if ltb n 8 then a / 2 ^ (8 - n) == b / 2 ^ (8 - n) else (a == b) && rest
same_bits n _ _ = n == 0

-- A prefix of at most 64 bits is found under each key that starts with it.
abbrev trie_covers : Endian → Covers
trie_covers e k key =
    leb (prefixlen e k) 64
    && (leb (prefixlen e k) (prefixlen e key)
        && same_bits (prefixlen e k) (behind_prefixlen k) (behind_prefixlen key))

-- The updates that there were, without those that were refused.
abbrev trie_map : KernelMap
trie_map = record {
  Table = List (List ℕ);
  lookup = λ t k. if is_known (trie_covers big) t k then some 97 else none;
  update = λ t k value flags. if leb (prefixlen big k) 64 then k ∷ t else t;
}

trie_map-IsTrie : IsTrie trie_map big
trie_map-IsTrie = record {
  refused = λ t k key value flags long.
      let no : leb (prefixlen big k) 64 ≡ false = ground arith in rw no refl;
}

abbrev own : Frame
own = record { len = 54; mem = byte_at ack_big; slot = key }

own-IsRefused : IsRefused big own
own-IsRefused = record {
  whole = record { bytes = ack_big-IsBytes; complete = λ tcp. omega arith };
  long = inr (refl, omega arith);
}

handle_frames-IsRefused_example :
    (verdicts : List Verdict) × (t : List (List ℕ)) × (handle_frames trie_map big
        (own ∷ own ∷ [])
        []
      ≡ some (verdicts, t))
    × ((wanted : List ℕ) → trie_map.lookup t wanted ≡ trie_map.lookup [] wanted)
handle_frames-IsRefused_example =
    handle_frames-IsRefused trie_map big trie_map-IsTrie (own ∷ own ∷ []) []
      (own-IsRefused, (own-IsRefused, tt))
