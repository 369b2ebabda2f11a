-- ===== src/Lib.antt =====
-- Verification of the XDP SYN cookie filter and of the programs beside it.
--
-- The filter is src/syncookie.c, which includes src/headers.h, src/parser.h and src/controller.c. The
-- kernel calls it on every frame; it parses the three headers, looks the connection up in a table,
-- and answers a SYN with a SYN-ACK whose sequence number is a cookie of the connection, so that it
-- keeps no state until an ACK brings the cookie back.
--
-- Files, and what they model:
--   Packet      the frame as a byte for each offset from `data`; loads and stores of 16 and 32 bits in
--               the byte order of the host (headers/bpf_endian.h), and bit-fields
--   Machine     commands over a state of packet and table; an access through NULL or outside the
--               packet is the result `fault`; KernelMap is the kernel's map, a parameter
--   Headers     src/headers.h: the structs as offsets
--   Parser      src/parser.h: parse_ether, parse_ipv4, parse_tcphdr; Parser/Bounds has their safety
--   Controller  src/controller.c: compute_connection, compute_cookie, handle_syn, handle_ack and
--               controller, under these names. swap_mac, swap_ip and swap_ports are the parts that
--               both handlers repeat, unwanted_flags is the first condition of controller,
--               new_connection and check_ack are its branches. Controller/Decision has the decision
--               that the code is to make, Controller/Cases says it in words of the packet,
--               Controller/Reply has the replies as functions of the packet
--   Syncookie   src/syncookie.c: syncookie_fn, and parse_tcp for the code behind that label; the
--               children have its theorems. Syncookie/Traffic calls it on one frame after another, with
--               the table in between: Table is about what a stream of frames does to the table,
--               Handshake about a SYN and its ACK with other frames between them, Known about the
--               connections that are in the table and those that never get there, and Replay has the
--               filter as a machine over packets, and Trie is about the table as it is declared
--   ParsingHelpers
--               common/parsing_helpers.h: proto_is_vlan and parse_ethhdr, of whose loop vlan_loop is
--               what is left with a number of rounds to go. ParsingHelpers/Protocols has the other
--               functions of the file, where tag_loop is the loop of get_ip6hdr and ip6hdr_at what
--               stands behind it
--   RewriteHelpers
--               common/rewrite_helpers.h: vlan_tag_pop and vlan_tag_push, whose parts behind the call
--               of bpf_xdp_adjust_head are put_header and put_tag, and the three swaps. The kernel's
--               function is the parameter adjust_head, with what it documents as IsAdjust and IsRoomy.
--               RewriteHelpers/Stack is about many tags one after another, and Parsed about what
--               parse_ethhdr makes of them
--   Stats       common/xdp_stats_kern.h and loader/xdp_prog_kern.c: what the kernel counts. The
--               children follow a run of packets through the map to what user space prints
--   StatsReader loader/xdp_stats.c: gettime, calc_period, the readers, map_collect, stats_collect and
--               stats_print; a line holds the numbers whose quotients are printed
--   StatsProgram
--               loader/xdp_stats.c: stats_poll, open_bpf_map_file and main. stats_poll has no end, so
--               poll_rounds takes a list of rounds, of any length; main is modelled from the parsed
--               command line on, and run_program is main with its command line. The children follow
--               its rounds, and the file that it opens to the one of the loader; StatsProgram/AfterLoader
--               runs it behind the loader. Program is about it with its command line, and Commands about
--               both programs with theirs; Attached has it beside one of the programs of
--               loader/xdp_prog_kern.c, by their sections, and Order is about packets in another order
--   Attach      common/common_user_bpf_xdp.c: xdp_link_attach, xdp_link_detach and, in
--               Attach/MapInfo, check_map_fd_info. Attach/Flags has the arithmetic of the flags,
--               Attach/Kernel what is left attached, and
--               Attach/ActionName action2str
--   Loader      loader/xdp_loader.c: pin_maps_in_bpf_object and main from the parsed command line on, and
--               of common/common_user_bpf_xdp.c load_bpf_object_file and load_bpf_and_xdp_attach.
--               attach_program, pin_at and after_load are parts of these.
--               Loader/Program is main with its command line, Loader/Sessions its calls one after
--               another, and Loader/Elsewhere is about the devices that a call does not name,
--               Loader/Names about names that are too long for struct config
--   PinnedMaps  common/common_libbpf.c: bpf_prog_load_xattr_maps. with_object is its body once the
--               object is open, open_maps and pin_maps are the loops over the maps before and after the
--               load, open_entry and pin_entry one round of their inner loops. PinnedMaps/Quiet is
--               about the calls between opening and loading, Objects and Settled about the ends
--   CommandLine common/common_params.c: parse_cmdline_args over the list of what getopt_long gives,
--               where handle is the switch; CommandLine/Options has option_wrappers_to_options,
--               CommandLine/Usage has usage and _print_options, as the text that they print,
--               CommandLine/Tables the options of the two programs, and CommandLine/Ends how
--               parse_cmdline_args ends with these
--   Bits        laws of `|`, `^` and `&`, which the cookie and the flags are made with
--   Tests       runs on concrete inputs, and each theorem at one of them
--
-- Numbers are unbounded in the model, and each wrap of a C word is written out. The byte order of the
-- host is a parameter: on a big-endian host the order is the network's, on a little-endian host it is
-- not, and the theorems about little-endian hosts show what follows from the missing conversions.
-- There are no loops in the filter, and those of the other programs are over lists or a number of
-- rounds that the source fixes, as are those over VLAN tags, so nothing runs on fuel. A loop that looks
-- for the end of a table gives `none` where it runs past it.
--
-- The key that handle_ack passes is `&connection`, the address of a pointer. The bytes that stand
-- there are the parameter `slot`. Of the kernel's map nothing is assumed but what a theorem names: that
-- an update takes no other entry away, that one under other bytes leaves a key alone, or (IsMap) under
-- which keys it is found in a map that is not full, or (IsTrie) that an update whose prefix is too long
-- changes no lookup. ETH_P_IP and IPPROTO_TCP come from system headers and are constants here.
--
-- libbpf's calls are the records Libbpf, LibbpfObjects and LibbpfMaps, with what it documents of them
-- as the hypotheses IsLink, IsApart, IsPinning, IsFiling, IsObjects and IsFiles; a lookup
-- from user space is an answer of the kernel, and the answers for all keys of one reading are from the
-- same map. getopt_long, malloc and if_nametoindex are parameters. The copied table of options has no
-- end: the command lines here are those whose options getopt_long finds before it runs out of the copy.
-- Messages on errors are not modelled.
--
-- Not modelled: libbpf/ and the kernel's headers under headers/, which are copies of other projects'
-- files, of which only constants are used; bpf_num_possible_cpus of headers/bpf_util.h is one of these,
-- and the number of CPUs is a parameter.
pub mod Prelude
pub mod Bits
pub mod Packet
pub mod Machine
pub mod Headers
pub mod Parser
pub mod ParsingHelpers
pub mod RewriteHelpers
pub mod Controller
pub mod Syncookie
pub mod Stats
pub mod Attach
pub mod Loader
pub mod PinnedMaps
pub mod CommandLine
pub mod StatsReader
pub mod StatsProgram
pub mod Tests
