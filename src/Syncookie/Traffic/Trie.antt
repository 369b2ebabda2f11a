-- ===== src/Syncookie/Traffic/Trie.antt =====
-- The table as src/syncookie.c declares it: an LPM trie, whose keys start with the length of a prefix.
use syncookie_xdp.Prelude.{
  ◌*◌, ◌-◌, length, refl, ◌⊎◌, inl, inr, ℕ, zero, suc, ◌<◌, ◌≡◌, refl, ap, ◌∙◌, some, List, [], ◌∷◌,
  arith,
}
use syncookie_xdp.Packet.{Endian, little, big, Mem, get32}
use syncookie_xdp.Machine.{KernelMap}
use syncookie_xdp.Attach.MapInfo.{BpfMapInfo}
use syncookie_xdp.Headers.{Connection, connection_bytes}
use syncookie_xdp.Controller.{insert, bpf_any}
use syncookie_xdp.Controller.Layout.{connection}
use syncookie_xdp.Controller.Cookie.{IsConnection, connection-IsConnection}
use syncookie_xdp.Syncookie.Traffic.{Frame, Verdict, handle_frames, IsWhole}
use syncookie_xdp.Syncookie.Traffic.Table.{AllFrames}
use syncookie_xdp.Syncookie.Traffic.Known.{handle_frames-keeps}
use syncookie_xdp.Syncookie.Traffic.Replay.{key_of}

abbrev byte_in : List ℕ → Mem
byte_in [] i = 0
byte_in (b ∷ bs) zero = b
byte_in (b ∷ bs) (suc i) = byte_in bs i

-- struct bpf_lpm_trie_key: a __u32, and the data behind it.
abbrev pub prefixlen : Endian → List ℕ → ℕ
prefixlen e key = get32 e (byte_in key) 0

-- The length of the prefix is the source address, as the host reads it.
pub prefixlen-connection_bytes :
    (e : Endian) (c : Connection) → IsConnection c → prefixlen e (connection_bytes e c) ≡ c.src_addr
unfolding connection_bytes
prefixlen-connection_bytes little c is = let lt = is.src_addr-lt in omega arith
prefixlen-connection_bytes big c is = let lt = is.src_addr-lt in omega arith

-- connections_table: BPF_MAP_TYPE_LPM_TRIE, with a connection_t for the key and a char for the value.
abbrev pub connections_table : BpfMapInfo
connections_table = record { map_type = 11; key_size = 12; value_size = 1; max_entries = 1000 }

length-connection_bytes :
    (e : Endian) (c : Connection) → length (connection_bytes e c) ≡ connections_table.key_size
unfolding connection_bytes
length-connection_bytes e c = refl

-- The bits behind the length, 64.
abbrev pub max_prefixlen : ℕ
max_prefixlen = 8 * (connections_table.key_size - 4)

-- What the kernel documents of a trie with 8 bytes behind the length: the length is at most their 64
-- bits, and an update with a longer prefix fails, so each lookup finds what it found before.
pub record IsTrie (M : KernelMap) (e : Endian) : Type 0 where
  pub refused :
      (t : M.Table) (k key : List ℕ) (value flags : ℕ)
      → max_prefixlen < prefixlen e k
      → M.lookup (M.update t k value flags) key ≡ M.lookup t key

-- The key of the update, the bytes at `&connection`, is a number above 64 in its first four bytes; or it
-- is, as it is meant, the key of the lookup, and the source address is such a number.
pub record IsRefused (e : Endian) (f : Frame) : Type 0 where
  pub whole : IsWhole e f
  pub long :
      (max_prefixlen < prefixlen e f.slot)
      ⊎ ((f.slot ≡ key_of e f) × (max_prefixlen < (connection e f.mem).src_addr))

IsRefused-prefixlen : (e : Endian) (f : Frame) → IsRefused e f → max_prefixlen < prefixlen e f.slot
IsRefused-prefixlen e f r = elim r.long [
  | inl long ↦ long
  | inr (own, above) ↦
      let same : prefixlen e f.slot ≡ (connection e f.mem).src_addr =
        ap (prefixlen e) own
        ∙ prefixlen-connection_bytes e (connection e f.mem)
            (connection-IsConnection e f.mem r.whole.bytes) in
      omega arith
]

module _ (M : KernelMap) (e : Endian) (trie : IsTrie M e) where
  -- In a trie each lookup finds what it found before, whatever frames come that are no truncated TCP
  -- packets, if the first four bytes of the key of each update are a number above 64; or even if that
  -- key is the one of the lookup, but the source address, with which this starts, is above 64 as a
  -- number of the host. The program returns for each frame.
  pub handle_frames-IsRefused :
      (fs : List Frame) (t : M.Table)
      → AllFrames (IsRefused e) fs
      → (verdicts : List Verdict) × (t' : M.Table) × (handle_frames M e fs t ≡ some (verdicts, t'))
        × ((key : List ℕ) → M.lookup t' key ≡ M.lookup t key)
  handle_frames-IsRefused fs t all =
      handle_frames-keeps M e (λ u. (key : List ℕ) → M.lookup u key ≡ M.lookup t key) (IsRefused e)
        (λ f r. r.whole)
        (λ f u r same key.
          trie.refused u f.slot key insert bpf_any (IsRefused-prefixlen e f r) ∙ same key)
        fs t all (λ key. refl)
