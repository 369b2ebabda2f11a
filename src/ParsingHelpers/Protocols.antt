-- ===== src/ParsingHelpers/Protocols.antt =====
-- common/parsing_helpers.h: the parsers behind the Ethernet header, and the get_ functions. A parser
-- gets the cursor's position; it gives the value that is returned and the new position, `none` for
-- -1. The header is then at the old position. A get_ function gives the header's place and the new
-- position, `none` for NULL.
use syncookie_xdp.Prelude.{
  ℕ, zero, suc, ◌+◌, ◌*◌, ◌%◌, not, Option, none, some, ◌==◌, ltb, if◌then◌else◌,
}
use syncookie_xdp.Packet.{Endian}
use syncookie_xdp.Machine.{Cmd, ok, at, load8, load16, pure, data_end, ◌>>=◌}
use syncookie_xdp.ParsingHelpers.{swap16, proto_is_vlan, vlan_max_depth}

-- ETH_P_IPV6 and IPPROTO_ICMPV6 of the system's headers, and the sizes of the headers.
abbrev pub eth_p_ipv6 : ℕ
eth_p_ipv6 = 0x86dd

abbrev pub ipproto_icmpv6 : ℕ
ipproto_icmpv6 = 58

abbrev pub ethhdr_size : ℕ
ethhdr_size = 14

abbrev pub ip6hdr_size : ℕ
ip6hdr_size = 40

abbrev pub iphdr_size : ℕ
iphdr_size = 20

abbrev pub icmphdr_size : ℕ
icmphdr_size = 8

-- struct icmphdr_common: type, code and checksum.
abbrev pub icmphdr_common_size : ℕ
icmphdr_common_size = 4

module _ {T : Type 0} where
  unfoldable pub parse_ip6hdr : ℕ → Cmd T (Option (ℕ × ℕ))
  unfolding data_end load8
  parse_ip6hdr nh = do
    end ← data_end
    if ltb end (nh + ip6hdr_size)
        then pure none
        else do nexthdr ← load8 (at nh) 6; pure (some (nexthdr, nh + ip6hdr_size))

  -- `ihl` is the low half of the first byte on both kinds of host.
  unfoldable pub parse_iphdr : ℕ → Cmd T (Option (ℕ × ℕ))
  unfolding data_end load8
  parse_iphdr nh = do
    end ← data_end
    if ltb end (nh + iphdr_size) then pure none else do
      first ← load8 (at nh) 0
      let hdrsize = first % 16 * 4
      if ltb end (nh + hdrsize)
          then pure none
          else do protocol ← load8 (at nh) 9; pure (some (protocol, nh + hdrsize))

  unfoldable pub parse_icmp6hdr : ℕ → Cmd T (Option (ℕ × ℕ))
  unfolding data_end load8
  parse_icmp6hdr nh = do
    end ← data_end
    if ltb end (nh + icmphdr_size)
        then pure none
        else do icmp6_type ← load8 (at nh) 0; pure (some (icmp6_type, nh + icmphdr_size))

  unfoldable pub parse_icmphdr : ℕ → Cmd T (Option (ℕ × ℕ))
  unfolding data_end load8
  parse_icmphdr nh = do
    end ← data_end
    if ltb end (nh + icmphdr_size)
        then pure none
        else do icmp_type ← load8 (at nh) 0; pure (some (icmp_type, nh + icmphdr_size))

  unfoldable pub parse_icmphdr_common : ℕ → Cmd T (Option (ℕ × ℕ))
  unfolding data_end load8
  parse_icmphdr_common nh = do
    end ← data_end
    if ltb end (nh + icmphdr_common_size)
        then pure none
        else do icmp_type ← load8 (at nh) 0; pure (some (icmp_type, nh + icmphdr_common_size))

  unfoldable pub get_ethhdr : ℕ → Cmd T (Option (ℕ × ℕ))
  unfolding data_end
  get_ethhdr nh = do
    end ← data_end
    pure (if ltb end (nh + ethhdr_size) then none else some (nh, nh + ethhdr_size))

  -- The loop of get_ip6hdr with `left` rounds to go; `none` for its `return NULL`.
  unfoldable pub tag_loop : Endian → ℕ → ℕ → ℕ → Cmd T (Option (ℕ × ℕ))
  unfolding load16
  tag_loop e zero h_proto vlh = λ s. ok (some (h_proto, vlh)) s
  tag_loop e (suc left) h_proto vlh = λ s.
      if not (proto_is_vlan e h_proto)
      then ok (some (h_proto, vlh)) s
      else if ltb s.len (vlh + 4)
      then ok none s
      else (load16 e (at vlh) 2 >>= λ next. tag_loop e left next (vlh + 4)) s

  -- What follows the loop.
  abbrev pub ip6hdr_at : Endian → ℕ × ℕ → Cmd T (Option (ℕ × ℕ))
  ip6hdr_at e found s =
      if not (found.0 == swap16 e eth_p_ipv6)
      then ok none s
      else if ltb s.len (found.1 + ip6hdr_size)
      then ok none s
      else ok (some (found.1, found.1 + ip6hdr_size)) s

  abbrev pub after_loop : Endian → Option (ℕ × ℕ) → Cmd T (Option (ℕ × ℕ))
  after_loop e none s = ok none s
  after_loop e (some found) s = ip6hdr_at e found s

  unfoldable pub get_ip6hdr : Endian → ℕ → ℕ → Cmd T (Option (ℕ × ℕ))
  unfolding load16 tag_loop
  get_ip6hdr e eth nh = load16 e (at eth) 12 >>= λ h_proto.
      tag_loop e vlan_max_depth h_proto nh >>= λ found. after_loop e found

  unfoldable pub get_icmp6hdr : ℕ → ℕ → Cmd T (Option (ℕ × ℕ))
  unfolding data_end load8
  get_icmp6hdr ip6h nh = do
    nexthdr ← load8 (at ip6h) 6
    end ← data_end
    pure (
        if not (nexthdr == ipproto_icmpv6)
        then none
        else if ltb end (nh + icmphdr_size)
        then none
        else some (nh, nh + icmphdr_size))
