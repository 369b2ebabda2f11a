-- ===== src/Tests/PinnedMaps.antt =====
-- bpf_prog_load_xattr_maps over a libbpf with one object of two maps, one of which is pinned.
use syncookie_xdp.Prelude.{
  ℕ, ◌+◌, ◌≡◌, ◌≢◌, refl, Bool, true, false, ◌&&◌, some, List, [], ◌∷◌, arith, codes, ap, ◌==◌,
  if◌then◌else◌, same_text, Bool-cases, inl, inr, sym, ◌∙◌,
}
use syncookie_xdp.Prelude.Int.{ℤ, pos, negsuc}
use syncookie_xdp.PinnedMaps.{
  LibbpfMaps, BpfPinnedMap, BpfProgLoadAttrMaps, Loaded, succeeds, bpf_prog_load_xattr_maps,
  is_err_or_null,
}
use syncookie_xdp.PinnedMaps.Objects.{IsObjects, IsBalanced, bpf_prog_load_xattr_maps-IsBalanced}
use syncookie_xdp.PinnedMaps.Pairs.{Pairs}
use syncookie_xdp.PinnedMaps.Entries.{IsFiles, IsSettled}
use syncookie_xdp.PinnedMaps.Settled.{bpf_prog_load_xattr_maps-IsSettled}

-- Whether the object 1 is open, and how many files have been pinned.
record Machine : Type 0 where
  opened : Bool
  pinned : ℕ

-- The file "a" can be opened, and nothing else.
abbrev is_file : List ℕ → Bool
is_file path = same_text path (codes "a")

abbrev one_object : LibbpfMaps Machine
one_object = record {
  open_xattr = λ file t k. if k.opened then (0, k) else (1, record k { opened = true });
  close = λ obj k. if obj == 1 then record k { opened = false } else k;
  programs = λ obj. 5 ∷ [];
  set_program_ifindex = λ prog n k. k;
  set_type = λ prog n k. k;
  set_expected_attach_type = λ prog n k. k;
  maps = λ obj. 7 ∷ 8 ∷ [];
  name = λ m. if m == 7 then codes "first" else codes "second";
  is_offload_neutral = λ m. false;
  set_map_ifindex = λ m n k. k;
  obj_get = λ path k. (if is_file path then pos 3 else negsuc 1, k);
  reuse_fd = λ m fd k. k;
  load = λ obj k. (pos 0, k);
  pin = λ m path k. (pos 0, record k { pinned = k.pinned + 1 });
  map_fd_of = λ m k. pos (m + 10);
  program_fd = λ prog k. pos 6;
}

abbrev is_open : ℕ → Machine → Bool
is_open obj k = (obj == 1) && k.opened

abbrev openable : List ℕ → Machine → Bool
openable path k = is_file path

true_ne_false : true ≢ false
true_ne_false e = cc

null_is_err : is_err_or_null 0 ≡ true
unfolding is_err_or_null
null_is_err = refl

one_is_not_err : is_err_or_null 1 ≡ false
unfolding is_err_or_null
one_is_not_err = refl

one_object-IsObjects : IsObjects one_object is_open
one_object-IsObjects = record {
  open_same = λ file t k o ne. elim (Bool-cases k.opened) [
    | inl busy ↦ rw busy refl
    | inr free ↦ rw free (let ne1 : o ≢ 1 = rw free at ne in ground arith)
  ];
  open_new = λ file t k good. elim (Bool-cases k.opened) [
    | inl busy ↦ absurd (true_ne_false (sym null_is_err ∙ rw busy at good))
    | inr free ↦ rw free (refl, refl)
  ];
  open_failed = λ file t k o bad. elim (Bool-cases k.opened) [
    | inl busy ↦ rw busy refl
    | inr free ↦ absurd (true_ne_false (sym (rw free at bad) ∙ one_is_not_err))
  ];
  close_same = λ obj o k ne. elim (Bool-cases (obj == 1)) [
    | inl one ↦ rw one (ground arith)
    | inr other ↦ rw other refl
  ];
  close_closed =
      λ obj k. elim (Bool-cases (obj == 1)) [ inl one ↦ ground arith | inr other ↦ ground arith ];
  quiet = λ o. record {
    set_program_ifindex-same = λ prog n k. refl;
    set_type-same = λ prog n k. refl;
    set_expected_attach_type-same = λ prog n k. refl;
    set_map_ifindex-same = λ m n k. refl;
    obj_get-same = λ path k. refl;
    reuse_fd-same = λ m fd k. refl;
  };
  load-open = λ obj o k. refl;
  pin-open = λ m path o k. refl;
}

one_object-IsFiles : IsFiles one_object openable
one_object-IsFiles = record {
  opens = λ path k. elim (Bool-cases (is_file path)) [
    | inl there ↦ rw there refl
    | inr missing ↦ rw missing refl
  ];
  open_xattr-openable = λ file t path k. refl;
  quiet = λ path. record {
    set_program_ifindex-same = λ prog n k. refl;
    set_type-same = λ prog n k. refl;
    set_expected_attach_type-same = λ prog n k. refl;
    set_map_ifindex-same = λ m n k. refl;
    obj_get-same = λ path k. refl;
    reuse_fd-same = λ m fd k. refl;
  };
}

abbrev pinned_map : List ℕ → List ℕ → ℤ → BpfPinnedMap
pinned_map name filename fd = record { name = name; filename = filename; map_fd = fd }

abbrev attr : BpfProgLoadAttrMaps
attr = record {
  file = some (codes "prog.o");
  prog_type = 6;
  expected_attach_type = 0;
  ifindex = 3;
  pinned_maps =
      pinned_map (codes "first") (codes "a") (pos 99)
      ∷ pinned_map (codes "second") (codes "b") (pos 99)
      ∷ pinned_map (codes "third") (codes "a") (pos 99)
      ∷ [];
}

abbrev idle : Machine
idle = record { opened = false; pinned = 0 }

abbrev after : List BpfPinnedMap
after =
    pinned_map (codes "first") (codes "a") (pos 3)
    ∷ pinned_map (codes "second") (codes "b") (pos 18)
    ∷ pinned_map (codes "third") (codes "a") (negsuc 0)
    ∷ []

-- The first is taken over, the second pinned, and the third not seen.
run_load :
    bpf_prog_load_xattr_maps one_object (some attr) idle
    ≡ (succeeds 1 (pos 6) after (codes "third" ∷ []), record { opened = true; pinned = 1 })
unfolding bpf_prog_load_xattr_maps same_text
run_load = refl

bpf_prog_load_xattr_maps-IsBalanced_example :
    IsBalanced one_object is_open idle
      (bpf_prog_load_xattr_maps one_object (some attr) idle).0
      (bpf_prog_load_xattr_maps one_object (some attr) idle).1
bpf_prog_load_xattr_maps-IsBalanced_example =
    bpf_prog_load_xattr_maps-IsBalanced one_object is_open one_object-IsObjects (some attr) idle

bpf_prog_load_xattr_maps-IsSettled_example :
    Pairs (IsSettled one_object openable idle (7 ∷ 8 ∷ [])) attr.pinned_maps after
bpf_prog_load_xattr_maps-IsSettled_example =
    bpf_prog_load_xattr_maps-IsSettled one_object openable one_object-IsFiles attr idle 1 (pos 6)
      after (codes "third" ∷ []) (ap (λ (r : Loaded × Machine). r.0) run_load)
