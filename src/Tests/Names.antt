-- ===== src/Tests/Names.antt =====
-- A command line with a file name of 600 bytes and the section "xdp_pass".
use syncookie_xdp.Prelude.{ℕ, zero, suc, ◌≡◌, refl, List, [], ◌∷◌, ◌++◌, arith, codes}
use syncookie_xdp.Loader.{c_string, strncpy, filename_string, progsec_string}
use syncookie_xdp.Loader.Program.{initial_settings}
use syncookie_xdp.Loader.Names.{IsRead, parse_loop-IsRead}
use syncookie_xdp.CommandLine.{Opt, Settings, parse_loop, goes_on}
use syncookie_xdp.CommandLine.Accepted.{IsText, take}

abbrev letters : ℕ → List ℕ
letters zero = []
letters (suc n) = b'a' ∷ letters n

letters-IsText : (n : ℕ) → IsText (letters n)
letters-IsText zero = tt
letters-IsText (suc n) = (omega arith, letters-IsText n)

abbrev long_name : List Opt
long_name =
    record { opt = 1; optarg = letters 600 } ∷ record { opt = 2; optarg = codes "xdp_pass" } ∷ []

abbrev settings : Settings
settings = record initial_settings {
  cfg = record initial_settings.cfg {
    filename = strncpy 512 (letters 600);
    progsec = strncpy 32 (codes "xdp_pass");
  };
}

run_long : parse_loop (λ name. 3) long_name initial_settings ≡ goes_on settings
unfolding parse_loop
run_long = refl

parse_loop-IsRead_example :
    IsRead 512 (letters 600) (progsec_string settings.cfg) (filename_string settings.cfg)
    × IsRead 32
        (codes "xdp_pass")
        (c_string (settings.cfg.src_mac ++ settings.cfg.dest_mac))
        (progsec_string settings.cfg)
parse_loop-IsRead_example =
    parse_loop-IsRead (λ name. 3) long_name settings (letters-IsText 600, (omega arith, tt))
      run_long

-- The name of the section is read behind the 512 bytes of the file name.
run_names : filename_string settings.cfg ≡ take 512 (letters 600) ++ codes "xdp_pass"
unfolding strncpy
run_names = refl
