-- ===== src/PinnedMaps.antt =====
-- common/common_libbpf.c: bpf_prog_load_xattr_maps, which loads an object file and takes over the maps
-- that are pinned, or pins those that are not. libbpf is a parameter.
pub mod Quiet
pub mod Objects
pub mod Pairs
pub mod Entries
pub mod Passed
pub mod Settled
use syncookie_xdp.Prelude.{
  ℕ, zero, suc, ◌-◌, ◌^◌, Bool, true, false, not, ◌||◌, Option, none, some, List, [], ◌∷◌, ◌==◌,
  leb, if◌then◌else◌, same_text,
}
use syncookie_xdp.Prelude.Int.{ℤ, pos, negsuc, is_pos}
use syncookie_xdp.Attach.{is_negative}

-- The calls of libbpf, on a state `K` of the process and the kernel. Objects, programs and maps are
-- pointers; `programs` and `maps` are what the two iterators visit.
pub record LibbpfMaps {ℓ} (K : Type ℓ) : Type ℓ where
  pub open_xattr : List ℕ → ℕ → K → ℕ × K
  pub close : ℕ → K → K
  pub programs : ℕ → List ℕ
  pub set_program_ifindex : ℕ → ℕ → K → K
  pub set_type : ℕ → ℕ → K → K
  pub set_expected_attach_type : ℕ → ℕ → K → K
  pub maps : ℕ → List ℕ
  pub name : ℕ → List ℕ
  pub is_offload_neutral : ℕ → Bool
  pub set_map_ifindex : ℕ → ℕ → K → K
  pub obj_get : List ℕ → K → ℤ × K
  pub reuse_fd : ℕ → ℤ → K → K
  pub load : ℕ → K → ℤ × K
  pub pin : ℕ → List ℕ → K → ℤ × K
  pub map_fd_of : ℕ → K → ℤ
  pub program_fd : ℕ → K → ℤ

-- struct bpf_pinned_map.
pub record BpfPinnedMap : Type 0 where
  pub name : List ℕ
  pub filename : List ℕ
  pub map_fd : ℤ

-- struct bpf_prog_load_attr_maps: NULL for the file is `none`, and nr_pinned_maps is the length of
-- `pinned_maps`.
pub record BpfProgLoadAttrMaps : Type 0 where
  pub file : Option (List ℕ)
  pub prog_type : ℕ
  pub expected_attach_type : ℕ
  pub ifindex : ℕ
  pub pinned_maps : List BpfPinnedMap

-- -EINVAL, -ENOENT, and the -1 for no descriptor.
abbrev pub minus_einval : ℤ
minus_einval = negsuc 21

abbrev pub minus_enoent : ℤ
minus_enoent = negsuc 1

abbrev pub no_map : ℤ
no_map = negsuc 0

-- `fd > 0`
abbrev pub is_positive : ℤ → Bool
is_positive (pos n) = not (n == 0)
is_positive (negsuc n) = false

-- `fd == -1`
abbrev pub is_minus_one : ℤ → Bool
is_minus_one (pos n) = false
is_minus_one (negsuc n) = n == 0

abbrev pub max_errno : ℕ
max_errno = 4095

unfoldable pub is_err_or_null : ℕ → Bool
is_err_or_null ptr = ptr == 0 || leb (2 ^ 64 - max_errno) ptr

-- `attr->pinned_maps[i].map_fd = -1` for all of them.
abbrev pub reset : BpfPinnedMap → BpfPinnedMap
reset p = record p { map_fd = no_map }

abbrev pub reset_all : List BpfPinnedMap → List BpfPinnedMap
reset_all [] = []
reset_all (p ∷ ps) = reset p ∷ reset_all ps

-- The names of the last loop's warnings.
unfoldable pub not_seen : List BpfPinnedMap → List (List ℕ)
not_seen [] = []
not_seen (p ∷ ps) = let rest = not_seen ps in if is_negative p.map_fd then p.name ∷ rest else rest

-- How the function ends: C does not say; with an error, and what the entries hold then; or with the object, the descriptor of its first program, the entries and
-- the names that were not seen.
pub data Loaded : Type 0 where
  undefined : Loaded
  fails : ℤ → List BpfPinnedMap → Loaded
  succeeds : ℕ → ℤ → List BpfPinnedMap → List (List ℕ) → Loaded

module _ {ℓ} {K : Type ℓ} (lib : LibbpfMaps K) where
  -- The loop over the programs, each of which gets the types and the device.
  unfoldable pub set_programs : BpfProgLoadAttrMaps → List ℕ → K → K
  set_programs attr [] k = k
  set_programs attr (prog ∷ progs) k = set_programs attr progs (
      lib.set_expected_attach_type prog attr.expected_attach_type
        (lib.set_type prog attr.prog_type (lib.set_program_ifindex prog attr.ifindex k)))

  -- `first_prog`
  abbrev pub first : List ℕ → ℕ
  first [] = 0
  first (prog ∷ progs) = prog

  -- One round of the inner loop over the entries, before the load.
  unfoldable pub open_entry : ℕ → BpfPinnedMap → K → BpfPinnedMap × K
  unfolding same_text
  open_entry m p k =
      if not (same_text (lib.name m) p.name)
      then (p, k)
      else (let (fd, k1) = lib.obj_get p.filename k in
          if is_positive fd then (record p { map_fd = fd }, lib.reuse_fd m fd k1) else (p, k1))

  unfoldable pub open_entries : ℕ → List BpfPinnedMap → K → List BpfPinnedMap × K
  unfolding open_entry
  open_entries m [] k = ([], k)
  open_entries m (p ∷ ps) k =
      let (p', k1) = open_entry m p k in let (ps', k2) = open_entries m ps k1 in (p' ∷ ps', k2)

  -- The loop over the maps before the load.
  unfoldable pub open_maps : ℕ → List ℕ → List BpfPinnedMap → K → List BpfPinnedMap × K
  unfolding open_entries
  open_maps ifindex [] ps k = (ps, k)
  open_maps ifindex (m ∷ ms) ps k =
      let k1 = if not (lib.is_offload_neutral m) then lib.set_map_ifindex m ifindex k else k in
      let (ps', k2) = open_entries m ps k1 in open_maps ifindex ms ps' k2

  -- One round of the inner loop over the entries, after the load.
  unfoldable pub pin_entry : ℕ → BpfPinnedMap → K → BpfPinnedMap × K
  unfolding same_text
  pin_entry m p k =
      if not (same_text (lib.name m) p.name)
      then (p, k)
      else if not (is_minus_one p.map_fd)
      then (p, k)
      else (let (err, k1) = lib.pin m p.filename k in
          if not (is_pos err 0) then (p, k1) else (record p { map_fd = lib.map_fd_of m k1 }, k1))

  unfoldable pub pin_entries : ℕ → List BpfPinnedMap → K → List BpfPinnedMap × K
  unfolding pin_entry
  pin_entries m [] k = ([], k)
  pin_entries m (p ∷ ps) k =
      let (p', k1) = pin_entry m p k in let (ps', k2) = pin_entries m ps k1 in (p' ∷ ps', k2)

  -- The loop over the maps after the load.
  unfoldable pub pin_maps : List ℕ → List BpfPinnedMap → K → List BpfPinnedMap × K
  unfolding pin_entries
  pin_maps [] ps k = (ps, k)
  pin_maps (m ∷ ms) ps k = let (ps', k1) = pin_entries m ps k in pin_maps ms ps' k1

  -- From the check of `first_prog` on.
  unfoldable pub load_and_pin : ℕ → List BpfPinnedMap → K → Loaded × K
  unfolding pin_maps not_seen
  load_and_pin obj ps k =
      let prog = first (lib.programs obj) in
      if prog == 0
      then (fails minus_enoent ps, lib.close obj k)
      else (let (err, k1) = lib.load obj k in
          if not (is_pos err 0)
          then (fails minus_einval ps, lib.close obj k1)
          else (let (ps', k2) = pin_maps (lib.maps obj) ps k1 in
              (succeeds obj (lib.program_fd prog k2) ps' (not_seen ps'), k2)))

  -- With the object open.
  unfoldable pub with_object : BpfProgLoadAttrMaps → ℕ → K → Loaded × K
  unfolding set_programs open_maps load_and_pin
  with_object attr obj k =
      let k1 = set_programs attr (lib.programs obj) k in
      let (ps, k2) = open_maps attr.ifindex (lib.maps obj) (reset_all attr.pinned_maps) k1 in
      load_and_pin obj ps k2

  -- With NULL for `attr` the initialiser of open_attr reads through it, before the test.
  unfoldable pub bpf_prog_load_xattr_maps : Option BpfProgLoadAttrMaps → K → Loaded × K
  unfolding with_object is_err_or_null
  bpf_prog_load_xattr_maps none k = (undefined, k)
  bpf_prog_load_xattr_maps (some attr) k = elim attr.file [
    | none ↦ (fails minus_einval attr.pinned_maps, k)
    | some file ↦
        let (obj, k1) = lib.open_xattr file attr.prog_type k in
        if is_err_or_null obj
        then (fails minus_enoent attr.pinned_maps, k1)
        else with_object attr obj k1
  ]
