-- ===== src/StatsProgram.antt =====
-- loader/xdp_stats.c: stats_poll, open_bpf_map_file and main.
pub mod Rounds
pub mod Opening
pub mod PinnedPath
pub mod AfterLoader
pub mod Program
pub mod Commands
pub mod Attached
pub mod Order
use syncookie_xdp.Prelude.{
  ℕ, zero, suc, ◌-◌, Bool, true, false, Option, none, some, List, [], ◌∷◌, ◌++◌, ◌==◌,
  if◌then◌else◌,
}
use syncookie_xdp.Prelude.Int.{ℤ, pos, negsuc}
use syncookie_xdp.Attach.{is_negative, exit_ok, exit_fail_bpf}
use syncookie_xdp.Attach.MapInfo.{BpfMapInfo, check_map_fd_info}
use syncookie_xdp.Loader.{
  Config, exit_fail_option, snprintf, path_max, pin_basedir, map_name, strncpy,
}
use syncookie_xdp.Stats.{Datarec, action_max}
use syncookie_xdp.StatsReader.{
  Record, StatsRecord, Answer, Line, zero_datarec, stats_collect, stats_print,
}
use syncookie_xdp.CommandLine.{
  Opt, Settings, Outcome, returns, exits, undefined, parse_cmdline_args,
}
use syncookie_xdp.CommandLine.Tables.{stats_options, stats_doc}

-- What a call of stats_collect meets, for each key: the uninitialised local, the clock, and the
-- kernel's answer.
pub record Meeting : Type 0 where
  pub garbage : ℕ → Datarec
  pub now : ℕ → ℕ
  pub answer : ℕ → Answer

abbrev pub collect : ℕ → Meeting → StatsRecord → StatsRecord
collect map_type met stats = stats_collect map_type met.garbage met.now met.answer stats

-- The endless loop of stats_poll, as far as some rounds of it: what each prints.
unfoldable pub poll_rounds : ℕ → List Meeting → StatsRecord → List (List Line)
unfolding stats_collect stats_print
poll_rounds map_type [] record0 = []
poll_rounds map_type (met ∷ rest) record0 =
    let record1 = collect map_type met record0 in
    stats_print record1 record0 ∷ poll_rounds map_type rest record1

-- `record = { 0 }`
abbrev pub zero_record : StatsRecord
zero_record k = record { timestamp = 0; total = zero_datarec }

unfoldable pub stats_poll : ℕ → Meeting → List Meeting → List (List Line)
unfolding stats_collect poll_rounds
stats_poll map_type first rounds = poll_rounds map_type rounds (collect map_type first zero_record)

-- `bpf_obj_get` of libbpf gives a descriptor for a file, or a negative number.
unfoldable pub open_bpf_map_file : (List ℕ → ℤ) → List ℕ → List ℕ → ℤ
unfolding snprintf
open_bpf_map_file bpf_obj_get pin_dir mapname =
    bpf_obj_get (snprintf path_max (pin_dir ++ (b'/' ∷ mapname)))

-- main exits with a code, or polls a map without end; or C does not say.
pub data Ending : Type 0 where
  exits_with : ℕ → Ending
  polls : ℤ → BpfMapInfo → Ending
  unspecified : Ending

-- The size of struct datarec, and map_expect.
abbrev pub map_expect : BpfMapInfo
map_expect = record { map_type = 0; key_size = 4; value_size = 16; max_entries = action_max }

-- `info = { 0 }`
abbrev pub no_info : BpfMapInfo
no_info = record { map_type = 0; key_size = 0; value_size = 0; max_entries = 0 }

-- `cfg` of main as it is initialised; what the initialiser leaves out is 0.
unfoldable pub stats_settings : Settings
unfolding strncpy
stats_settings = record {
  cfg = record {
    xdp_flags = 0;
    ifindex = none;
    ifname = [];
    redirect_ifindex = 0;
    redirect_ifname = [];
    do_unload = false;
    filename = strncpy 512 [];
    progsec = strncpy 32 [];
    src_mac = strncpy 18 [];
    dest_mac = strncpy 18 [];
  };
  verbose = true;
}

module _ (bpf_obj_get : List ℕ → ℤ) (get_info : ℤ → BpfMapInfo → ℤ × BpfMapInfo) where
  -- The descriptor of the pinned map of a device.
  unfoldable pub stats_map_fd : List ℕ → ℤ
  unfolding open_bpf_map_file snprintf
  stats_map_fd ifname =
      open_bpf_map_file bpf_obj_get (snprintf path_max (pin_basedir ++ (b'/' ∷ ifname))) map_name

  -- main from the parsed command line on.
  unfoldable pub main : Config → Ending
  unfolding stats_map_fd check_map_fd_info
  main cfg = elim cfg.ifindex [
    | none ↦ exits_with exit_fail_option
    | some ifindex ↦
        let fd = stats_map_fd cfg.ifname in
        if is_negative fd
        then exits_with exit_fail_bpf
        else (let (err, info) = check_map_fd_info get_info fd no_info map_expect in
            if err == 0 then polls fd info else exits_with err)
  ]

  abbrev pub after_parsing : Outcome → Ending
  after_parsing (returns p) = main p.cfg
  after_parsing (exits code text) = exits_with code
  after_parsing undefined = unspecified

  unfoldable pub run_program : (List ℕ → ℕ) → Bool → List ℕ → List Opt → Ending
  unfolding main parse_cmdline_args stats_settings
  run_program if_nametoindex malloc prog_name opts = after_parsing (
      parse_cmdline_args if_nametoindex malloc prog_name opts stats_options stats_settings
        stats_doc)
