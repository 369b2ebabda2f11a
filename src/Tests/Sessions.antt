-- ===== src/Tests/Sessions.antt =====
-- Calls of the loader for two devices, and the statistics program after them.
use syncookie_xdp.Prelude.{
  ℕ, ◌+◌, ◌≡◌, refl, ap, sym, ◌∙◌, true, false, Option, some, none, List, [], ◌∷◌, ◌++◌, ◌==◌,
  codes, arith, if◌then◌else◌, Bool-cases, inl, inr, none_ne_some, same_text, some_inj, length, ltb,
  ◌<◌,
}
use syncookie_xdp.Prelude.Int.{ℤ, pos, negsuc, is_pos}
use syncookie_xdp.Attach.{Libbpf, exit_ok, xdp_link_attach}
use syncookie_xdp.Attach.MapInfo.{BpfMapInfo}
use syncookie_xdp.Loader.{LibbpfObjects, Config, strncpy, snprintf, after_load, path_max}
use syncookie_xdp.Loader
use syncookie_xdp.Loader.Program.{initial_settings}
use syncookie_xdp.Loader.Program
use syncookie_xdp.CommandLine.{Opt, Settings, parse_loop, goes_on}
use syncookie_xdp.CommandLine.Accepted.{AllTexts}
use syncookie_xdp.CommandLine.Ends.{IsAccepted}
use syncookie_xdp.StatsProgram.Commands.{run_program-after_loader}
use syncookie_xdp.StatsProgram.{run_program, polls}
use syncookie_xdp.StatsProgram.AfterLoader.{xdp_stats_map, IsFiling}
use syncookie_xdp.Loader.Attached.{IsPinning}
use syncookie_xdp.Loader.Elsewhere.{IsApart}
use syncookie_xdp.Loader.Sessions.{Call, calls, AllElsewhere, calls-elsewhere}
use syncookie_xdp.Tests.Attach.{Slots, two_slots, attached, generic}

-- The two slots of each device.
abbrev Devices : Type 0
Devices = ℕ → Slots

abbrev put : ℕ → Slots → Devices → Devices
put i s k j = if j == i then s else k j

abbrev devices : Libbpf Devices
devices = record {
  set_link_xdp_fd =
      λ i fd flags k. let (err, s) = two_slots.set_link_xdp_fd i fd flags (k i) in (err, put i s k);
  get_link_xdp_id = λ i flags k. two_slots.get_link_xdp_id i flags (k i);
}

abbrev attached_to : ℕ → ℕ → Devices → Option ℕ
attached_to i flags k = attached i flags (k i)

abbrev objects : LibbpfObjects Devices
objects = record {
  prog_load_xattr = λ file ifindex k. ((pos 0, 1), k);
  find_program_by_title = λ obj title. 5;
  program_next = λ obj. 5;
  program_title = λ prog. codes "xdp_drop";
  program_fd = λ prog. pos 6;
  access = λ file k. true;
  unpin_maps = λ obj dir k. (pos 0, k);
  pin_maps = λ obj dir k. (if ltb (length dir) 100 then pos 0 else negsuc 35, k);
}

objects-IsPinning : IsPinning objects attached_to
objects-IsPinning = record {
  unpin-attached = λ obj dir i flags k. refl;
  pin-attached = λ obj dir i flags k. refl;
}

devices-IsApart : IsApart devices objects attached_to
devices-IsApart = record {
  set-apart = λ i j fd flags flags' k other.
      let s = (two_slots.set_link_xdp_fd i fd flags (k i)).1 in
      ap (attached j flags') (let apart : put i s k j ≡ k j = ground arith in apart);
  load-apart = λ file ifindex j flags k. refl;
}

-- The index of "eth0" is 3, and that of every other device 4.
abbrev index_of_device : List ℕ → ℕ
index_of_device name = if same_text name (codes "eth0") then 3 else 4

-- The loader is called twice for "eth1", once with an option that it does not know.
abbrev two_calls : List Call
two_calls =
    record {
      malloc = true;
      prog_name = codes "xdp_loader";
      opts = record { opt = b'd'; optarg = codes "eth1" } ∷ record { opt = b'U'; optarg = [] } ∷ [];
    }
    ∷ record {
      malloc = true;
      prog_name = codes "xdp_loader";
      opts = record { opt = b'?'; optarg = [] } ∷ [];
    }
    ∷ []

two_calls-AllElsewhere : AllElsewhere index_of_device 3 two_calls
unfolding same_text
two_calls-AllElsewhere = (
  record {
    texts = ((omega arith, (omega arith, (omega arith, (omega arith, tt)))), (tt, tt));
    other = λ name e h.
        let device : codes "eth1" ≡ name = some_inj e in
        let four : 4 ≡ 3 = ap index_of_device device ∙ h in absurd (omega arith);
  },
  (record { texts = (tt, tt); other = λ name e h. absurd (none_ne_some e) }, tt),
)

calls-elsewhere_example :
    (k' : Devices) × (calls devices objects index_of_device two_calls (λ i. generic) ≡ some k')
    × (attached 3 2 (k' 3) ≡ some 9)
calls-elsewhere_example =
    calls-elsewhere devices objects index_of_device attached_to objects-IsPinning devices-IsApart 3
      2 two_calls (λ i. generic) two_calls-AllElsewhere

abbrev defines : ℕ → List ℕ → Option BpfMapInfo
defines obj name = if ltb (length name) 100 then some xdp_stats_map else none

abbrev obj_get : List ℕ → Devices → ℤ
obj_get path k = pos 5

abbrev get_info : ℤ → BpfMapInfo → Devices → ℤ × BpfMapInfo
get_info fd info k = (pos 0, xdp_stats_map)

length-append : (xs ys : List ℕ) → length (xs ++ ys) ≡ length xs + length ys
length-append [] ys = omega arith
length-append (x ∷ xs) ys = let rest = length-append xs ys in omega arith

path-short :
    (dir name : List ℕ)
    → length dir < 100
    → length name < 100
    → length (dir ++ (b'/' ∷ name)) < path_max
path-short dir name d n = let lengths = length-append dir (b'/' ∷ name) in omega arith

defines-some :
    (obj : ℕ) (name : List ℕ) (info : BpfMapInfo)
    → defines obj name ≡ some info
    → (length name < 100) × (xdp_stats_map ≡ info)
defines-some obj name info e = elim (Bool-cases (ltb (length name) 100)) [
  | inl short ↦ (
    ground arith,
    some_inj (let f : defines obj name ≡ some xdp_stats_map = rw short refl in sym f ∙ e),
  )
  | inr long ↦ absurd (none_ne_some (let f : defines obj name ≡ none = rw long refl in sym f ∙ e))
]

objects-short :
    (obj : ℕ) (dir : List ℕ) (k : Devices)
    → is_pos (objects.pin_maps obj dir k).0 0 ≡ true
    → length dir < 100
objects-short obj dir k ok = elim (Bool-cases (ltb (length dir) 100)) [
  | inl short ↦ ground arith
  | inr long ↦ let failed : false ≡ true = rw long at ok in cc
]

objects-IsFiling : IsFiling devices objects defines obj_get get_info
objects-IsFiling = record {
  pinned = λ obj dir name info k ok has.
      let (short, same) = defines-some obj name info has in
      (
        path-short dir name (objects-short obj dir k ok) short,
        record { opened = refl; described = ap (λ (m : BpfMapInfo). (pos 0, m)) same },
      );
}

-- `-d eth0`, for both programs.
abbrev eth0_opts : List Opt
eth0_opts = record { opt = b'd'; optarg = codes "eth0" } ∷ []

eth0_opts-AllTexts : AllTexts eth0_opts
eth0_opts-AllTexts = ((omega arith, (omega arith, (omega arith, (omega arith, tt)))), tt)

abbrev eth0_settings : Settings
eth0_settings = record initial_settings {
  cfg = record initial_settings.cfg { ifindex = some 3; ifname = codes "eth0" };
}

eth0_parsed : parse_loop index_of_device eth0_opts initial_settings ≡ goes_on eth0_settings
unfolding parse_loop initial_settings same_text
eth0_parsed = refl

abbrev no_programs : Devices
no_programs i = record { skb = 0; drv = 0 }

abbrev behind_loader : Devices
behind_loader = put 3 (record { skb = 0; drv = 7 }) no_programs

run_loader :
    Loader.Program.run_program devices objects index_of_device true
      (codes "xdp_loader")
      eth0_opts
      no_programs
    ≡ some (exit_ok, behind_loader)
unfolding Loader.Program.run_program Loader.main strncpy snprintf xdp_link_attach same_text
run_loader = refl

eth0-IsAccepted : IsAccepted index_of_device true eth0_opts
unfolding same_text
eth0-IsAccepted = (refl, refl)

run_program-after_loader_example :
    (map_fd : ℤ) × (run_program
        (λ path. obj_get path behind_loader)
        (λ fd info. get_info fd info behind_loader)
        index_of_device
        true
        (codes "xdp_stats")
        eth0_opts
      ≡ polls map_fd xdp_stats_map)
run_program-after_loader_example =
    run_program-after_loader devices objects defines obj_get get_info index_of_device
      objects-IsFiling true true (codes "xdp_loader") (codes "xdp_stats") (codes "eth0") eth0_opts
      eth0_opts eth0_settings no_programs behind_loader eth0_opts-AllTexts eth0_opts-AllTexts
      eth0_parsed refl refl refl run_loader eth0-IsAccepted refl
