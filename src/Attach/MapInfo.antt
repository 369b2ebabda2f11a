-- ===== src/Attach/MapInfo.antt =====
-- common/common_user_bpf_xdp.c: check_map_fd_info, which compares what the kernel says of a map
-- with what the caller expects of it.
use syncookie_xdp.Prelude.{
  ℕ, ◌≡◌, ◌↔◌, ◌⊎◌, Bool, false, not, ◌&&◌, refl, arith, ◌==◌, if◌then◌else◌, Bool-cases, inl, inr,
}
use syncookie_xdp.Prelude.Int.{ℤ, pos, is_pos, is_pos_iff}
use syncookie_xdp.Attach.{exit_ok, exit_fail, exit_fail_bpf, is_negative}

-- The fields of struct bpf_map_info that are compared.
pub record BpfMapInfo : Type 0 where
  pub map_type : ℕ
  pub key_size : ℕ
  pub value_size : ℕ
  pub max_entries : ℕ

-- `exp->field && exp->field != info->field`
abbrev pub differs : ℕ → ℕ → Bool
differs expected found = not (expected == 0) && not (expected == found)

abbrev pub compare_info : BpfMapInfo → BpfMapInfo → ℕ
compare_info info exp =
    if differs exp.key_size info.key_size
    then exit_fail
    else if differs exp.value_size info.value_size
    then exit_fail
    else if differs exp.max_entries info.max_entries
    then exit_fail
    else if differs exp.map_type info.map_type
    then exit_fail
    else exit_ok

-- `get_info` is bpf_obj_get_info_by_fd: an error code, and the description that it stores, or
-- leaves, in `*info`. The result is the exit code and `*info`.
unfoldable pub check_map_fd_info :
    (ℤ → BpfMapInfo → ℤ × BpfMapInfo) → ℤ → BpfMapInfo → BpfMapInfo → ℕ × BpfMapInfo
check_map_fd_info get_info map_fd info exp =
    if is_negative map_fd
    then (exit_fail, info)
    else (let (err, found) = get_info map_fd info in
        if not (is_pos err 0) then (exit_fail_bpf, found) else (compare_info found exp, found))

-- A field is as expected, or nothing is expected of it.
abbrev pub Agrees : ℕ → ℕ → Type 0
Agrees expected found = (expected ≡ 0) ⊎ (expected ≡ found)

-- A description has what is expected.
pub record IsCompatible (info exp : BpfMapInfo) : Type 0 where
  pub keys : Agrees exp.key_size info.key_size
  pub sizes : Agrees exp.value_size info.value_size
  pub entries : Agrees exp.max_entries info.max_entries
  pub kinds : Agrees exp.map_type info.map_type

differs_iff : (expected found : ℕ) → (differs expected found ≡ false) ↔ Agrees expected found
differs_iff expected found = ground arith

compare_info_iff :
    (info exp : BpfMapInfo) → (compare_info info exp ≡ exit_ok) ↔ IsCompatible info exp
compare_info_iff info exp = (
  (λ h. record {
    keys = (differs_iff exp.key_size info.key_size).0 (ground arith);
    sizes = (differs_iff exp.value_size info.value_size).0 (ground arith);
    entries = (differs_iff exp.max_entries info.max_entries).0 (ground arith);
    kinds = (differs_iff exp.map_type info.map_type).0 (ground arith);
  }),
  λ c.
      let a = (differs_iff exp.key_size info.key_size).1 c.keys in
      let b = (differs_iff exp.value_size info.value_size).1 c.sizes in
      let d = (differs_iff exp.max_entries info.max_entries).1 c.entries in
      let e = (differs_iff exp.map_type info.map_type).1 c.kinds in ground arith,
)

module _ (get_info : ℤ → BpfMapInfo → ℤ × BpfMapInfo) (map_fd : ℤ) (info exp : BpfMapInfo) where
  -- check_map_fd_info gives 0 exactly for a descriptor that is not negative, whose map the kernel
  -- describes, with each of the four fields as expected or with nothing expected of it.
  pub check_map_fd_info_iff : ((check_map_fd_info get_info map_fd info exp).0 ≡ exit_ok) ↔ (
      (is_negative map_fd ≡ false)
      × (((get_info map_fd info).0 ≡ pos 0) × IsCompatible (get_info map_fd info).1 exp))
  unfolding check_map_fd_info
  check_map_fd_info_iff =
      let same = compare_info_iff (get_info map_fd info).1 exp in
      let zero = is_pos_iff (get_info map_fd info).0 0 in
      elim (Bool-cases (is_negative map_fd)) [
        | inl neg ↦ rw neg (λ h. absurd (ground arith), λ h. absurd (ground arith))
        | inr valid ↦ elim (Bool-cases (is_pos (get_info map_fd info).0 0)) [
          | inl ok ↦ rw valid (rw ok (λ h. (refl, (zero.0 ok, same.0 h)), λ h. same.1 h.1.1))
          | inr bad ↦ rw valid (
              rw bad
                (λ h. absurd (ground arith), λ h. let e = zero.1 h.1.0 in absurd (ground arith)))
        ]
      ]
