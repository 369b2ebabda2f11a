-- ===== src/Tests/CommandLine.antt =====
-- Command lines of the loader, and the theorems about them.
use syncookie_xdp.Prelude.{ℕ, ◌≡◌, refl, true, some, List, [], ◌∷◌, arith, codes}
use syncookie_xdp.Prelude.Int.{pos}
use syncookie_xdp.Attach.{xdp_link_attach, skb_mode}
use syncookie_xdp.Loader.{strncpy, snprintf, main}
use syncookie_xdp.Loader.Program.{
  initial_settings, run_program, IsCarriedOut, run_program-IsCarriedOut,
}
use syncookie_xdp.CommandLine.{Opt, Settings, parse_loop, goes_on}
use syncookie_xdp.CommandLine.Options.{
  LongOption, option_wrappers_to_options, IsCopy, option_wrappers_to_options-IsCopy, count_named,
}
use syncookie_xdp.CommandLine.Tables.{loader_options}
use syncookie_xdp.CommandLine.Modes.{IsNewFlags, parse_loop-IsNewFlags}
use syncookie_xdp.CommandLine.Accepted.{IsText, AllTexts, goes, all_accepted, goes-parse_loop}
use syncookie_xdp.Tests.Attach.{two_slots, program, attached, generic, two_slots-IsLink}
use syncookie_xdp.Tests.Loader.{one_program, one_program-IsPinning}

-- Every device has the index 3.
abbrev index_three : List ℕ → ℕ
index_three name = 3

-- `--dev eth0 -F -S`
abbrev command : List Opt
command =
    record { opt = b'd'; optarg = codes "eth0" }
    ∷ record { opt = b'F'; optarg = [] }
    ∷ record { opt = b'S'; optarg = [] }
    ∷ []

eth0-IsText : IsText (codes "eth0")
eth0-IsText = (omega arith, (omega arith, (omega arith, (omega arith, tt))))

command-AllTexts : AllTexts command
command-AllTexts = (eth0-IsText, (tt, (tt, tt)))

option_wrappers_to_options-IsCopy_example :
    (os : List LongOption) × ((option_wrappers_to_options true loader_options ≡ some (pos 0, os))
      × IsCopy loader_options 10 os)
unfolding count_named
option_wrappers_to_options-IsCopy_example = option_wrappers_to_options-IsCopy loader_options 10 refl

goes-parse_loop_example :
    goes (parse_loop index_three command initial_settings) ≡ all_accepted index_three command
goes-parse_loop_example = goes-parse_loop index_three command initial_settings command-AllTexts

abbrev parsed : Settings
parsed = record initial_settings {
  cfg = record initial_settings.cfg {
    xdp_flags = skb_mode;
    ifindex = some 3;
    ifname = codes "eth0";
  };
}

run_parse : parse_loop index_three command initial_settings ≡ goes_on parsed
unfolding parse_loop strncpy initial_settings
run_parse = refl

parse_loop-IsNewFlags_example : IsNewFlags (some skb_mode) true 5 2
unfolding initial_settings
parse_loop-IsNewFlags_example =
    parse_loop-IsNewFlags index_three command initial_settings parsed (omega arith) run_parse

-- The program of the generic mode is replaced.
run_loader :
    run_program two_slots one_program index_three true (codes "xdp_loader") command generic
    ≡ some (0, record { skb = 7; drv = 0 })
unfolding run_program main strncpy snprintf xdp_link_attach
run_loader = refl

run_program-IsCarriedOut_example :
    IsCarriedOut two_slots one_program index_three attached program two_slots-IsLink
      one_program-IsPinning command generic
      (record { skb = 7; drv = 0 })
run_program-IsCarriedOut_example =
    run_program-IsCarriedOut two_slots one_program index_three attached program two_slots-IsLink
      one_program-IsPinning true (codes "xdp_loader") command generic (record { skb = 7; drv = 0 })
      command-AllTexts run_loader
