-- ===== src/Tests/Loader.antt =====
-- The loader over the kernel of Tests/Attach, with an object file that has one program.
use syncookie_xdp.Prelude.{ℕ, ◌≡◌, refl, true, false, some, List, [], ◌∷◌}
use syncookie_xdp.Prelude.Int.{pos}
use syncookie_xdp.Attach.{drv_mode, xdp_link_attach}
use syncookie_xdp.Loader.{LibbpfObjects, Config, strncpy, main, snprintf, after_load}
use syncookie_xdp.Loader.Attached.{IsPinning}
use syncookie_xdp.Tests.Attach.{Slots, two_slots, attached, generic}

-- The section "xdp_drop".
abbrev section : List ℕ
section = 120 ∷ 100 ∷ 112 ∷ 95 ∷ 100 ∷ 114 ∷ 111 ∷ 112 ∷ []

abbrev pub one_program : LibbpfObjects Slots
one_program = record {
  prog_load_xattr = λ file ifindex k. ((pos 0, 1), k);
  find_program_by_title = λ obj title. 5;
  program_next = λ obj. 5;
  program_title = λ prog. section;
  program_fd = λ prog. pos 6;
  access = λ file k. true;
  unpin_maps = λ obj dir k. (pos 0, k);
  pin_maps = λ obj dir k. (pos 0, k);
}

pub one_program-IsPinning : IsPinning one_program attached
one_program-IsPinning = record {
  unpin-attached = λ obj dir i flags k. refl;
  pin-attached = λ obj dir i flags k. refl;
}

abbrev default_config : Config
default_config = record {
  xdp_flags = drv_mode;
  ifindex = some 3;
  ifname = 101 ∷ 116 ∷ 104 ∷ 48 ∷ [];
  redirect_ifindex = 0;
  redirect_ifname = [];
  do_unload = false;
  filename = strncpy 512 [];
  progsec = strncpy 32 section;
  src_mac = strncpy 18 [];
  dest_mac = strncpy 18 [];
}

run_loader : main two_slots one_program default_config generic ≡ (0, record { skb = 0; drv = 7 })
unfolding main strncpy snprintf after_load xdp_link_attach
run_loader = refl
