-- ===== src/Tests/Attach.antt =====
-- Attaching and detaching over a kernel with one program slot for each of two modes.
use syncookie_xdp.Prelude.{
  Bool, sym, ◌/◌, ◌%◌, not, ℕ, zero, suc, ◌≡◌, ◌≢◌, ◌⊎◌, inl, inr, refl, true, false, ap, arith,
  ◌∙◌, ◌==◌, Option, none, some, if◌then◌else◌, Bool-cases,
}
use syncookie_xdp.Prelude.Int.{ℤ, pos, negsuc}
use syncookie_xdp.Attach.{
  Libbpf, any_flag, drv_mode, minus_eexist, is_negative, xdp_link_attach, xdp_link_detach,
  other_mode, modes, is_eexist,
}
use syncookie_xdp.Attach.Kernel.{
  IsLink, IsAttached, IsDetached, opposite, xdp_link_attach-outcome, xdp_link_detach-IsDetached,
}
use syncookie_xdp.Attach.MapInfo.{BpfMapInfo}

-- The id of the program in each mode, 0 for none.
pub record Slots : Type 0 where
  pub skb : ℕ
  pub drv : ℕ

-- A program is refused while there is one in the other mode.
abbrev set_skb : ℤ → Slots → ℤ × Slots
set_skb (pos n) k = if k.drv == 0 then (pos 0, record k { skb = suc n }) else (minus_eexist, k)
set_skb (negsuc n) k = (pos 0, record k { skb = 0 })

abbrev set_drv : ℤ → Slots → ℤ × Slots
set_drv (pos n) k = if k.skb == 0 then (pos 0, record k { drv = suc n }) else (minus_eexist, k)
set_drv (negsuc n) k = (pos 0, record k { drv = 0 })

-- XDP_FLAGS_SKB_MODE.
abbrev is_skb : ℕ → Bool
is_skb flags = flags / 2 % 2 == 1

-- The only program there is; of two that in the mode of the flags, if they give one.
abbrev id_of : ℕ → Slots → ℕ
id_of flags k =
    if k.skb == 0
    then k.drv
    else if k.drv == 0
    then k.skb
    else if is_skb flags
    then k.skb
    else if any_flag flags modes
    then k.drv
    else 0

abbrev pub two_slots : Libbpf Slots
two_slots = record {
  set_link_xdp_fd = λ i fd flags k. if is_skb flags then set_skb fd k else set_drv fd k;
  get_link_xdp_id = λ i flags k. (pos 0, id_of flags k);
}

abbrev present : ℕ → Option ℕ
present zero = none
present (suc n) = some (suc n)

abbrev pub program : ℤ → Option ℕ
program (pos n) = some (suc n)
program (negsuc n) = none

abbrev pub attached : ℕ → ℕ → Slots → Option ℕ
attached i flags k = present (if is_skb flags then k.skb else k.drv)

set_skb-cases :
    (fd : ℤ) (k : Slots)
    → (((set_skb fd k).0 ≡ pos 0) × (present (set_skb fd k).1.skb ≡ program fd))
      ⊎ ((is_negative (set_skb fd k).0 ≡ true) × ((set_skb fd k).1 ≡ k))
set_skb-cases (pos n) k = elim (Bool-cases (k.drv == 0)) [
  | inl h ↦ rw h (inl (refl, refl))
  | inr h ↦ rw h (inr (refl, refl))
]
set_skb-cases (negsuc n) k = inl (refl, refl)

set_drv-cases :
    (fd : ℤ) (k : Slots)
    → (((set_drv fd k).0 ≡ pos 0) × (present (set_drv fd k).1.drv ≡ program fd))
      ⊎ ((is_negative (set_drv fd k).0 ≡ true) × ((set_drv fd k).1 ≡ k))
set_drv-cases (pos n) k = elim (Bool-cases (k.skb == 0)) [
  | inl h ↦ rw h (inl (refl, refl))
  | inr h ↦ rw h (inr (refl, refl))
]
set_drv-cases (negsuc n) k = inl (refl, refl)

-- What each of the two leaves alone, and when it does not give -EEXIST.
set_skb-other :
    (fd : ℤ) (k : Slots)
    → ((set_skb fd k).1.drv ≡ k.drv) × ((k.drv ≡ 0) → is_eexist (set_skb fd k).0 ≡ false)
set_skb-other (pos n) k = (ground arith, λ h. ground arith)
set_skb-other (negsuc n) k = (refl, λ h. refl)

set_drv-other :
    (fd : ℤ) (k : Slots)
    → ((set_drv fd k).1.skb ≡ k.skb) × ((k.skb ≡ 0) → is_eexist (set_drv fd k).0 ≡ false)
set_drv-other (pos n) k = (ground arith, λ h. ground arith)
set_drv-other (negsuc n) k = (refl, λ h. refl)

present-zero : (n : ℕ) → present n ≡ none → n ≡ 0
present-zero zero h = refl
present-zero (suc n) h = absurd (ground arith)

present-nonzero : (n : ℕ) → n ≢ 0 → present n ≡ some n
present-nonzero zero h = absurd (ground arith)
present-nonzero (suc n) h = refl

opposite-skb : (flags : ℕ) → is_skb (opposite flags) ≡ not (is_skb flags)
opposite-skb flags = elim (Bool-cases (is_skb flags)) [
  | inl h ↦ rw h (ground arith)
  | inr h ↦ rw h (ground arith)
]

attached-opposite :
    (i flags : ℕ) (k : Slots)
    → attached i (opposite flags) k ≡ present (if is_skb flags then k.drv else k.skb)
attached-opposite i flags k = let o = opposite-skb flags in ground arith

two_slots-set-opposite :
    (i : ℕ) (fd : ℤ) (flags : ℕ) (k : Slots)
    → attached i (opposite flags) (two_slots.set_link_xdp_fd i fd flags k).1
      ≡ attached i (opposite flags) k
two_slots-set-opposite i fd flags k =
    attached-opposite i flags (two_slots.set_link_xdp_fd i fd flags k).1
    ∙ (elim (Bool-cases (is_skb flags)) [
      | inl h ↦ rw h (ap present (set_skb-other fd k).0)
      | inr h ↦ rw h (ap present (set_drv-other fd k).0)
    ])
    ∙ sym (attached-opposite i flags k)

two_slots-set-eexist :
    (i : ℕ) (fd : ℤ) (flags : ℕ) (k : Slots)
    → attached i (opposite flags) k ≡ none
    → is_eexist (two_slots.set_link_xdp_fd i fd flags k).0 ≡ false
two_slots-set-eexist i fd flags k absent =
    let gone =
      present-zero (if is_skb flags then k.drv else k.skb)
        (sym (attached-opposite i flags k) ∙ absent) in
    elim (Bool-cases (is_skb flags)) [
      | inl h ↦ rw h ((set_skb-other fd k).1 (rw h at gone))
      | inr h ↦ rw h ((set_drv-other fd k).1 (rw h at gone))
    ]

two_slots-get-none :
    (i flags : ℕ) (k : Slots)
    → id_of flags k ≡ 0
    → (attached i flags k ≡ none) ⊎ (any_flag flags modes ≡ false)
two_slots-get-none i flags k h = elim (Bool-cases (any_flag flags modes)) [
  | inr unknown ↦ inr unknown
  | inl given ↦ inl (
      ap present
        (let none_there : (if is_skb flags then k.skb else k.drv) ≡ 0 = ground arith in none_there))
]

two_slots-get-some :
    (i flags id : ℕ) (k : Slots)
    → id_of flags k ≡ id
    → id ≢ 0
    → (attached i flags k ≡ some id)
      ⊎ ((attached i flags k ≡ none) × ((mode : ℕ) × (attached i mode k ≡ some id)))
two_slots-get-some i flags id k h nonzero =
    elim (Bool-cases ((if is_skb flags then k.skb else k.drv) == 0)) [
      | inl absent ↦ inr (
        (let zero_there : (if is_skb flags then k.skb else k.drv) ≡ 0 = ground arith in
            ap present zero_there),
        elim (Bool-cases (k.skb == 0)) [
          | inl z ↦
              (4, let same : k.drv ≡ id = ground arith in rw same (present-nonzero id nonzero))
          | inr z ↦
              (2, let same : k.skb ≡ id = ground arith in rw same (present-nonzero id nonzero))
        ],
      )
      | inr there ↦ inl (
          let same : (if is_skb flags then k.skb else k.drv) ≡ id = ground arith in
          ap present same ∙ present-nonzero id nonzero)
    ]

pub two_slots-IsLink : IsLink two_slots attached program
two_slots-IsLink = record {
  program-none = refl;
  set-cases = λ i fd flags k. elim (Bool-cases (is_skb flags)) [
    | inl h ↦ rw h (set_skb-cases fd k)
    | inr h ↦ rw h (set_drv-cases fd k)
  ];
  set-opposite = λ i fd flags k given. two_slots-set-opposite i fd flags k;
  set-eexist = λ i fd flags k absent. two_slots-set-eexist i fd flags k absent;
  get-none = λ i flags k e. two_slots-get-none i flags k (ap (λ (r : ℤ × ℕ). r.1) e);
  get-some = λ i flags id k e h. two_slots-get-some i flags id k (ap (λ (r : ℤ × ℕ). r.1) e) h;
}

abbrev pub generic : Slots
generic = record { skb = 9; drv = 0 }

-- The program of the generic mode is replaced by one of the driver's.
run_replace :
    xdp_link_attach two_slots 3 drv_mode (pos 6) generic ≡ (0, record { skb = 0; drv = 7 })
unfolding xdp_link_attach other_mode
run_replace = refl

xdp_link_attach-outcome_example :
    IsAttached two_slots attached program two_slots-IsLink 3 drv_mode generic
      (pos 6)
      (xdp_link_attach two_slots 3 drv_mode (pos 6) generic)
xdp_link_attach-outcome_example =
    xdp_link_attach-outcome two_slots attached program two_slots-IsLink 3 drv_mode generic (pos 6)
      (omega arith)

-- The program of the generic mode is still attached behind a removal in the driver's, with code 0.
run_detach : xdp_link_detach two_slots 3 drv_mode 9 generic ≡ (0, generic)
unfolding xdp_link_detach
run_detach = refl

xdp_link_detach-IsDetached_example :
    IsDetached two_slots attached program two_slots-IsLink 3 drv_mode generic 9
      (xdp_link_detach two_slots 3 drv_mode 9 generic)
xdp_link_detach-IsDetached_example =
    xdp_link_detach-IsDetached two_slots attached program two_slots-IsLink 3 drv_mode generic 9

abbrev stats_info : BpfMapInfo
stats_info = record { map_type = 6; key_size = 4; value_size = 16; max_entries = 5 }

abbrev stats_expected : BpfMapInfo
stats_expected = record { map_type = 0; key_size = 4; value_size = 16; max_entries = 5 }

abbrev get_info : ℤ → BpfMapInfo → ℤ × BpfMapInfo
get_info fd info = (pos 0, stats_info)
