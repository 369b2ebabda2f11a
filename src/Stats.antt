-- ===== src/Stats.antt =====
-- Statistics per XDP action: common/xdp_stats_kern_user.h and loader/common_kern_user.h declare the
-- record, common/xdp_stats_kern.h counts a packet (the filter includes it), loader/xdp_prog_kern.c
-- has a second version of it and three programs that use that.
pub mod Totals
pub mod Counting
pub mod Collect
pub mod Polls
use syncookie_xdp.Prelude.{
  ℕ, ◌+◌, ◌-◌, ◌%◌, ◌^◌, ◌&&◌, Option, none, some, leb, ◌==◌, if◌then◌else◌,
}

-- struct datarec: two __u64.
pub record Datarec : Type 0 where
  pub rx_packets : ℕ
  pub rx_bytes : ℕ

-- XDP_ACTION_MAX, XDP_REDIRECT + 1, and the actions of headers/linux/bpf.h as numbers.
abbrev pub action_max : ℕ
action_max = 5

abbrev pub aborted : ℕ
aborted = 0

abbrev pub drop : ℕ
drop = 1

abbrev pub pass : ℕ
pass = 2

-- The part of struct xdp_md that is used: two __u32.
pub record XdpMd : Type 0 where
  pub packet_start : ℕ
  pub packet_end : ℕ

-- xdp_stats_map, the kernel's array with a record for each CPU: by CPU and key, the record that
-- a lookup on that CPU points to, or `none` where it gives NULL.
abbrev pub StatsMap : Type 0
StatsMap = ℕ → ℕ → Option Datarec

abbrev pub store : StatsMap → ℕ → ℕ → Datarec → StatsMap
store m cpu key rec c k = if c == cpu && k == key then some rec else m c k

-- `rec->rx_packets++; rec->rx_bytes += bytes;`
abbrev pub count_packet : Datarec → ℕ → Datarec
count_packet rec bytes = record {
  rx_packets = (rec.rx_packets + 1) % 2 ^ 64;
  rx_bytes = (rec.rx_bytes + bytes) % 2 ^ 64;
}

-- The lookup and what follows it, in both versions, for the number of bytes that each computes.
abbrev pub record_at : ℕ → ℕ → ℕ → StatsMap → ℕ × StatsMap
record_at bytes cpu action m = if leb action_max action then (aborted, m) else elim (m cpu action) [
  | none ↦ (aborted, m)
  | some rec ↦ (action, store m cpu action (count_packet rec bytes))
]

-- common/xdp_stats_kern.h: `ctx->data_end - ctx->data` is a subtraction of two __u32.
unfoldable pub xdp_stats_record_action : XdpMd → ℕ → ℕ → StatsMap → ℕ × StatsMap
xdp_stats_record_action ctx action cpu m =
    record_at ((ctx.packet_end + 2 ^ 32 - ctx.packet_start) % 2 ^ 32) cpu action m

-- loader/xdp_prog_kern.c: the difference of two pointers, as a __u64.
unfoldable pub prog_record_action : XdpMd → ℕ → ℕ → StatsMap → ℕ × StatsMap
prog_record_action ctx action cpu m =
    record_at ((ctx.packet_end + 2 ^ 64 - ctx.packet_start) % 2 ^ 64) cpu action m

unfoldable pub xdp_pass_func : XdpMd → ℕ → StatsMap → ℕ × StatsMap
unfolding prog_record_action
xdp_pass_func ctx cpu m = prog_record_action ctx pass cpu m

unfoldable pub xdp_drop_func : XdpMd → ℕ → StatsMap → ℕ × StatsMap
unfolding prog_record_action
xdp_drop_func ctx cpu m = prog_record_action ctx drop cpu m

unfoldable pub xdp_abort_func : XdpMd → ℕ → StatsMap → ℕ × StatsMap
unfolding prog_record_action
xdp_abort_func ctx cpu m = prog_record_action ctx aborted cpu m
