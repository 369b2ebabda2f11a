-- ===== src/CommandLine/Tables.antt =====
-- The tables of options of loader/xdp_loader.c and loader/xdp_stats.c, and what stands beside them.
use syncookie_xdp.Prelude.{ℕ, Bool, true, false, Option, none, some, List, [], ◌∷◌, codes}
use syncookie_xdp.CommandLine.Options.{OptionWrapper}

-- no_argument and required_argument of getopt.h.
abbrev pub no_argument : ℕ
no_argument = 0

abbrev pub required_argument : ℕ
required_argument = 1

abbrev pub entry : List ℕ → ℕ → ℕ → List ℕ → Option (List ℕ) → Bool → OptionWrapper
entry name has_arg val help metavar required = record {
  option = record { name = some name; has_arg = has_arg; val = val };
  help = help;
  metavar = metavar;
  required = required;
}

-- `{{0, 0, NULL, 0 }, NULL, false}`
abbrev pub end_entry : OptionWrapper
end_entry = record {
  option = record { name = none; has_arg = 0; val = 0 };
  help = [];
  metavar = none;
  required = false;
}

abbrev pub loader_doc : List ℕ
loader_doc =
    codes "XDP loader\n - Allows selecting BPF section --progsec name to XDP-attach to --dev\n"

abbrev pub default_filename : List ℕ
default_filename = codes "syncookie.o"

-- A metavariable that is left out is NULL, and `required` is then false.
abbrev pub loader_options : List OptionWrapper
loader_options =
    entry (codes "help") no_argument b'h' (codes "Show help") none false
    ∷ entry (codes "dev") required_argument b'd' (codes "Operate on device <ifname>")
        (some (codes "<ifname>")) true
    ∷ entry (codes "skb-mode") no_argument b'S'
        (codes "Install XDP program in SKB (AKA generic) mode") none false
    ∷ entry (codes "native-mode") no_argument b'N' (codes "Install XDP program in native mode") none
        false
    ∷ entry (codes "auto-mode") no_argument b'A' (codes "Auto-detect SKB or native mode") none false
    ∷ entry (codes "force") no_argument b'F'
        (codes "Force install, replacing existing program on interface") none false
    ∷ entry (codes "unload") no_argument b'U' (codes "Unload XDP program instead of loading") none
        false
    ∷ entry (codes "quiet") no_argument b'q' (codes "Quiet mode (no output)") none false
    ∷ entry (codes "filename") required_argument 1 (codes "Load program from <file>")
        (some (codes "<file>")) false
    ∷ entry (codes "progsec") required_argument 2
        (codes "Load program in <section> of the ELF file") (some (codes "<section>")) false
    ∷ end_entry
    ∷ []

abbrev pub stats_doc : List ℕ
stats_doc = codes "XDP stats program\n - Finding xdp_stats_map via --dev name info\n"

abbrev pub stats_options : List OptionWrapper
stats_options =
    entry (codes "help") no_argument b'h' (codes "Show help") none false
    ∷ entry (codes "dev") required_argument b'd' (codes "Operate on device <ifname>")
        (some (codes "<ifname>")) true
    ∷ entry (codes "quiet") no_argument b'q' (codes "Quiet mode (no output)") none false
    ∷ end_entry
    ∷ []
