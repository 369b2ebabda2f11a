-- ===== src/RewriteHelpers.antt =====
-- common/rewrite_helpers.h: VLAN tags put on and taken off, and exchanged addresses.
pub mod Copies
pub mod Tagged
pub mod Tags
pub mod RoundTrip
pub mod Stack
pub mod Parsed
pub mod Swaps
use syncookie_xdp.Prelude.{ℕ, List, ◌+◌, ◌<◌, ◌≡◌, ◌⊎◌, Bool, not, ltb, if◌then◌else◌}
use syncookie_xdp.Prelude.Int.{ℤ, pos, negsuc, is_pos}
use syncookie_xdp.Packet.{Endian, IsBytes}
use syncookie_xdp.Machine.{
  State, Cmd, Run, Ptr, ok, at, load16, load32, load_bytes, store16, store32, store_bytes, pure,
  data_end, ◌>>=◌, ◌>>◌,
}
use syncookie_xdp.ParsingHelpers.{swap16, proto_is_vlan}
use syncookie_xdp.ParsingHelpers.Protocols.{ethhdr_size}

-- The size of struct vlan_hdr, and ETH_P_8021Q.
abbrev pub vlan_hdr_size : ℕ
vlan_hdr_size = 4

abbrev pub eth_p_8021q : ℕ
eth_p_8021q = 0x8100

-- `return -1;`
abbrev pub minus_one : ℤ
minus_one = negsuc 0

-- bpf_xdp_adjust_head of the kernel: it moves the start of the packet by a number of bytes, and
-- gives 0 or an error code. The offsets are from the new start.
abbrev pub AdjustHead : Type 0 → Type 0
AdjustHead T = ℤ → State T → ℤ × State T

module _ {T : Type 0} (e : Endian) (adjust_head : AdjustHead T) where
  abbrev pub adjust : ℤ → Cmd T ℤ
  adjust delta s = let (err, s') = adjust_head delta s in ok err s'

  -- The end of vlan_tag_pop, behind the call that moves the start of the packet.
  unfoldable pub put_header : List ℕ → ℕ → ℕ → Cmd T ℤ
  unfolding data_end store_bytes store16
  put_header eth_cpy h_proto vlid = do
    end ← data_end
    if ltb end ethhdr_size then pure minus_one else do
      store_bytes (at 0) 0 ethhdr_size eth_cpy
      store16 e (at 0) 12 h_proto
      pure (pos vlid)

  unfoldable pub vlan_tag_pop : ℕ → Cmd T ℤ
  unfolding data_end load16 load_bytes put_header
  vlan_tag_pop eth = do
    end ← data_end
    outer ← load16 e (at eth) 12
    if not (proto_is_vlan e outer) then pure minus_one else do
      let vlh = eth + ethhdr_size
      if ltb end (vlh + vlan_hdr_size) then pure minus_one else do
        tci ← load16 e (at vlh) 0
        h_proto ← load16 e (at vlh) 2
        eth_cpy ← load_bytes (at eth) 0 ethhdr_size
        err ← adjust (pos vlan_hdr_size)
        if not (is_pos err 0) then pure minus_one else put_header eth_cpy h_proto (swap16 e tci)

  -- The end of vlan_tag_push, behind that call.
  unfoldable pub put_tag : List ℕ → ℕ → Cmd T ℤ
  unfolding data_end load16 store_bytes store16
  put_tag eth_cpy vlid = do
    end ← data_end
    if ltb end ethhdr_size then pure minus_one else do
      store_bytes (at 0) 0 ethhdr_size eth_cpy
      if ltb end (ethhdr_size + vlan_hdr_size) then pure minus_one else do
        store16 e (at ethhdr_size) 0 (swap16 e vlid)
        h_proto ← load16 e (at 0) 12
        store16 e (at ethhdr_size) 2 h_proto
        store16 e (at 0) 12 (swap16 e eth_p_8021q)
        pure (pos 0)

  unfoldable pub vlan_tag_push : ℕ → ℕ → Cmd T ℤ
  unfolding load_bytes put_tag
  vlan_tag_push eth vlid = do
    eth_cpy ← load_bytes (at eth) 0 ethhdr_size
    err ← adjust (negsuc 3)
    if not (is_pos err 0) then pure minus_one else put_tag eth_cpy vlid

module _ {T : Type 0} where
  unfoldable pub swap_src_dst_mac : ℕ → Cmd T (Unit {0})
  unfolding load_bytes store_bytes
  swap_src_dst_mac eth = do
    h_tmp ← load_bytes (at eth) 6 6
    h_dest ← load_bytes (at eth) 0 6
    store_bytes (at eth) 6 6 h_dest
    store_bytes (at eth) 0 6 h_tmp

  unfoldable pub swap_src_dst_ipv6 : ℕ → Cmd T (Unit {0})
  unfolding load_bytes store_bytes
  swap_src_dst_ipv6 ipv6 = do
    tmp ← load_bytes (at ipv6) 8 16
    daddr ← load_bytes (at ipv6) 24 16
    store_bytes (at ipv6) 8 16 daddr
    store_bytes (at ipv6) 24 16 tmp

  unfoldable pub swap_src_dst_ipv4 : Endian → ℕ → Cmd T (Unit {0})
  unfolding load32 store32
  swap_src_dst_ipv4 e iphdr = do
    tmp ← load32 e (at iphdr) 12
    daddr ← load32 e (at iphdr) 16
    store32 e (at iphdr) 12 daddr
    store32 e (at iphdr) 16 tmp
