-- ===== src/Loader.antt =====
-- loader/xdp_loader.c, and load_bpf_object_file and load_bpf_and_xdp_attach of
-- common/common_user_bpf_xdp.c: loading the object file, attaching a program of it and pinning its
-- maps. libbpf and the file system are parameters.
pub mod Attached
pub mod Program
pub mod Elsewhere
pub mod Sessions
pub mod Names
use Prim.Native.Nat.{bit_and}
use syncookie_xdp.Prelude.{
  ℕ, zero, suc, ◌-◌, Bool, true, false, not, Option, none, some, List, [], ◌∷◌, ◌++◌, ◌==◌,
  if◌then◌else◌,
}
use syncookie_xdp.Prelude.Int.{ℤ, pos, negsuc, is_pos}
use syncookie_xdp.Attach.{
  Libbpf, any_flag, hw_mode, is_negative, xdp_link_attach, xdp_link_detach, exit_ok, exit_fail_bpf,
}

abbrev pub exit_fail_option : ℕ
exit_fail_option = 2

-- What the two files call besides: objects and programs are pointers, 0 is NULL. Each call that
-- may change the kernel or the files gives the new state.
pub record LibbpfObjects {ℓ} (K : Type ℓ) : Type ℓ where
  pub prog_load_xattr : List ℕ → ℕ → K → (ℤ × ℕ) × K
  pub find_program_by_title : ℕ → List ℕ → ℕ
  pub program_next : ℕ → ℕ
  pub program_title : ℕ → List ℕ
  pub program_fd : ℕ → ℤ
  pub access : List ℕ → K → Bool
  pub unpin_maps : ℕ → List ℕ → K → ℤ × K
  pub pin_maps : ℕ → List ℕ → K → ℤ × K

-- struct config; ifindex is `none` for the -1 it starts with, and ifname and redirect_ifname are the
-- strings that stand in the buffers they point to. The last four arrays are their bytes, in the
-- order of the struct, where they are side by side.
pub record Config : Type 0 where
  pub xdp_flags : ℕ
  pub ifindex : Option ℕ
  pub ifname : List ℕ
  pub redirect_ifindex : ℕ
  pub redirect_ifname : List ℕ
  pub do_unload : Bool
  pub filename : List ℕ
  pub progsec : List ℕ
  pub src_mac : List ℕ
  pub dest_mac : List ℕ

-- The string that starts at the first of some bytes: up to the first 0.
abbrev pub c_string : List ℕ → List ℕ
c_string [] = []
c_string (b ∷ bs) = if b == 0 then [] else b ∷ c_string bs

abbrev pub progsec_string : Config → List ℕ
progsec_string cfg = c_string (cfg.progsec ++ (cfg.src_mac ++ cfg.dest_mac))

abbrev pub filename_string : Config → List ℕ
filename_string cfg = c_string (cfg.filename ++ (cfg.progsec ++ (cfg.src_mac ++ cfg.dest_mac)))

-- strncpy of a string into `n` bytes: no final 0 where it has `n` bytes or more.
unfoldable pub strncpy : ℕ → List ℕ → List ℕ
strncpy zero s = []
strncpy (suc n) [] = 0 ∷ strncpy n []
strncpy (suc n) (b ∷ s) = b ∷ strncpy n s

-- `cfg->progsec[0]`
abbrev pub first_byte : List ℕ → ℕ
first_byte [] = 0
first_byte (b ∷ bs) = b

-- snprintf of a text into an array of `n` bytes: the text, without its end where it is too long.
unfoldable pub snprintf : ℕ → List ℕ → List ℕ
snprintf zero s = []
snprintf (suc zero) s = []
snprintf (suc (suc n)) [] = []
snprintf (suc (suc n)) (b ∷ s) = b ∷ snprintf (suc n) s

abbrev pub path_max : ℕ
path_max = 4096

-- "/sys/fs/bpf" and "xdp_stats_map".
abbrev pub pin_basedir : List ℕ
pin_basedir = 47 ∷ 115 ∷ 121 ∷ 115 ∷ 47 ∷ 102 ∷ 115 ∷ 47 ∷ 98 ∷ 112 ∷ 102 ∷ []

abbrev pub map_name : List ℕ
map_name = 120 ∷ 100 ∷ 112 ∷ 95 ∷ 115 ∷ 116 ∷ 97 ∷ 116 ∷ 115 ∷ 95 ∷ 109 ∷ 97 ∷ 112 ∷ []

-- A function that may end the process.
pub data Run {ℓ} (A : Type ℓ) : Type ℓ where
  returns : A → Run A
  exits : ℕ → Run A

module _ {ℓ} {K : Type ℓ} (lib : Libbpf K) (objects : LibbpfObjects K) where
  unfoldable pub load_bpf_object_file : List ℕ → ℕ → K → ℕ × K
  load_bpf_object_file filename ifindex k =
      let ((err, obj), k') = objects.prog_load_xattr filename ifindex k in
      (if not (is_pos err 0) then 0 else obj, k')

  -- The program of the section that was asked for, or the first of the object.
  abbrev pub choose : Config → ℕ → ℕ
  choose cfg obj =
      if not (first_byte cfg.progsec == 0)
      then objects.find_program_by_title obj (progsec_string cfg)
      else objects.program_next obj

  abbrev pub is_fd : ℤ → Bool
  is_fd (pos n) = not (n == 0)
  is_fd (negsuc n) = false

  -- From the choice of the program on, for a device.
  unfoldable pub attach_program : ℕ → Config → ℕ → K → Run (ℕ × Config) × K
  attach_program ifindex cfg obj k =
      let prog = choose cfg obj in
      if prog == 0
      then (exits exit_fail_bpf, k)
      else if not (is_fd (objects.program_fd prog))
      then (exits exit_fail_bpf, k)
      else (let (err, k') = xdp_link_attach lib ifindex cfg.xdp_flags (objects.program_fd prog) k in
          if not (err == 0) then (exits err, k') else (
            returns (obj, record cfg { progsec = strncpy 32 (objects.program_title prog) }),
            k',
          ))

  unfoldable pub load_bpf_and_xdp_attach : ℕ → Config → K → Run (ℕ × Config) × K
  unfolding load_bpf_object_file attach_program
  load_bpf_and_xdp_attach ifindex cfg k =
      let offload_ifindex = if any_flag cfg.xdp_flags hw_mode then ifindex else 0 in
      let (obj, k') = load_bpf_object_file (filename_string cfg) offload_ifindex k in
      if obj == 0 then (exits exit_fail_bpf, k') else attach_program ifindex cfg obj k'

  -- pin_maps_in_bpf_object, for the two names that snprintf makes.
  unfoldable pub pin_at : ℕ → List ℕ → List ℕ → K → ℕ × K
  pin_at obj pin_dir map_filename k =
      let (unpinned, k1) =
        if objects.access map_filename k then objects.unpin_maps obj pin_dir k else (pos 0, k) in
      if not (is_pos unpinned 0)
      then (exit_fail_bpf, k1)
      else (let (pinned, k2) = objects.pin_maps obj pin_dir k1 in
          (if not (is_pos pinned 0) then exit_fail_bpf else exit_ok, k2))

  -- The two names cannot fail: snprintf of strings gives no negative number.
  unfoldable pub pin_maps_in_bpf_object : ℕ → List ℕ → K → ℕ × K
  unfolding pin_at snprintf
  pin_maps_in_bpf_object obj subdir k =
      pin_at obj (snprintf path_max (pin_basedir ++ (47 ∷ subdir)))
        (snprintf path_max (pin_basedir ++ (47 ∷ (subdir ++ (47 ∷ map_name))))) k

  -- The end of main: pinning, with the name of the device for the directory.
  unfoldable pub after_load : Config → Run (ℕ × Config) × K → ℕ × K
  unfolding pin_maps_in_bpf_object
  after_load cfg (exits code, k) = (code, k)
  after_load cfg (returns result, k) = pin_maps_in_bpf_object result.0 cfg.ifname k

  -- main of the loader from the parsed command line on, with the exit code of the process.
  unfoldable pub main : Config → K → ℕ × K
  unfolding load_bpf_and_xdp_attach after_load
  main cfg k = elim cfg.ifindex [
    | none ↦ (exit_fail_option, k)
    | some ifindex ↦
        if cfg.do_unload
        then xdp_link_detach lib ifindex cfg.xdp_flags 0 k
        else after_load cfg (load_bpf_and_xdp_attach ifindex cfg k)
  ]
