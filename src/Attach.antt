-- ===== src/Attach.antt =====
-- common/common_user_bpf_xdp.c: attaching the program to a device, detaching it, and checking a
-- map's description. libbpf, which asks the kernel, is a parameter.
pub mod ActionName
pub mod Flags
pub mod Kernel
pub mod MapInfo
use Prim.Native.Nat.{bit_and, bit_or}
use syncookie_xdp.Prelude.{
  ℕ, zero, suc, ◌-◌, ◌^◌, Bool, true, false, not, ◌&&◌, Option, none, some, List, ◌==◌, ltb,
  if◌then◌else◌,
}
use syncookie_xdp.Prelude.Int.{ℤ, pos, negsuc, is_pos}

-- XDP_FLAGS_* of headers/linux/if_link.h.
abbrev pub update_if_noexist : ℕ
update_if_noexist = 1

abbrev pub skb_mode : ℕ
skb_mode = 2

abbrev pub drv_mode : ℕ
drv_mode = 4

abbrev pub hw_mode : ℕ
hw_mode = 8

abbrev pub modes : ℕ
modes = 14

-- Exit codes of common/common_defines.h.
abbrev pub exit_ok : ℕ
exit_ok = 0

abbrev pub exit_fail : ℕ
exit_fail = 1

abbrev pub exit_fail_xdp : ℕ
exit_fail_xdp = 30

abbrev pub exit_fail_bpf : ℕ
exit_fail_bpf = 40

-- -EEXIST, and the -1 that stands for no program.
abbrev pub minus_eexist : ℤ
minus_eexist = negsuc 16

abbrev pub no_fd : ℤ
no_fd = negsuc 0

-- What the file calls of libbpf, on a state `K` of the kernel: bpf_set_link_xdp_fd on a device, a
-- file descriptor and flags, and bpf_get_link_xdp_id, which gives an error code and an id.
pub record Libbpf {ℓ} (K : Type ℓ) : Type ℓ where
  pub set_link_xdp_fd : ℕ → ℤ → ℕ → K → ℤ × K
  pub get_link_xdp_id : ℕ → ℕ → K → ℤ × ℕ

abbrev pub is_negative : ℤ → Bool
is_negative (pos m) = false
is_negative (negsuc m) = true

-- `err == -EEXIST`
abbrev pub is_eexist : ℤ → Bool
is_eexist (pos m) = false
is_eexist (negsuc m) = m == 16

-- `flags & mask` as a condition.
abbrev pub any_flag : ℕ → ℕ → Bool
any_flag flags mask = not (bit_and flags mask == 0)

-- `xdp_flags &= ~XDP_FLAGS_MODES`
unfoldable pub clear_modes : ℕ → ℕ
clear_modes flags = bit_and flags (2 ^ 32 - 1 - modes)

-- The flags of the retry.
unfoldable pub other_mode : ℕ → ℕ
unfolding clear_modes
other_mode flags =
    bit_or (clear_modes flags) (if any_flag flags skb_mode then drv_mode else skb_mode)

module _ {ℓ} {K : Type ℓ} (lib : Libbpf K) where
  -- The calls of xdp_link_attach: the first, and where it gives -EEXIST and the program need not be
  -- absent, the removal in the other mode and the second attempt.
  unfoldable pub set_or_replace : ℕ → ℕ → ℤ → K → ℤ × K
  unfolding other_mode
  set_or_replace ifindex xdp_flags prog_fd k =
      let (err, k1) = lib.set_link_xdp_fd ifindex prog_fd xdp_flags k in
      if is_eexist err && not (any_flag xdp_flags update_if_noexist)
      then (let (err2, k2) = lib.set_link_xdp_fd ifindex no_fd (other_mode xdp_flags) k1 in
          if is_pos err2 0 then lib.set_link_xdp_fd ifindex prog_fd xdp_flags k2 else (err2, k2))
      else (err, k1)

  unfoldable pub xdp_link_attach : ℕ → ℕ → ℤ → K → ℕ × K
  unfolding set_or_replace
  xdp_link_attach ifindex xdp_flags prog_fd k =
      let (err, k') = set_or_replace ifindex xdp_flags prog_fd k in
      (if is_negative err then exit_fail_xdp else exit_ok, k')

  unfoldable pub xdp_link_detach : ℕ → ℕ → ℕ → K → ℕ × K
  xdp_link_detach ifindex xdp_flags expected_prog_id k =
      let (err, curr_prog_id) = lib.get_link_xdp_id ifindex xdp_flags k in
      if not (is_pos err 0)
      then (exit_fail_xdp, k)
      else if curr_prog_id == 0
      then (exit_ok, k)
      else if not (expected_prog_id == 0) && not (curr_prog_id == expected_prog_id)
      then (exit_fail, k)
      else (let (err2, k') = lib.set_link_xdp_fd ifindex no_fd xdp_flags k in
          (if is_negative err2 then exit_fail_xdp else exit_ok, k'))
