-- ===== src/PinnedMaps/Passed.antt =====
-- What the loop of bpf_prog_load_xattr_maps after the load does with the entries of pinned_maps.
use mathlib.Core.List.Memᴰ.{head, tail}
use syncookie_xdp.Prelude.{
  same_text, ℕ, ◌≡◌, inl, inr, refl, Bool, true, List, [], ◌∷◌, Bool-cases, ap, sym, subst, ◌∙◌,
}
use syncookie_xdp.Prelude.Int.{ℤ, is_pos}
use syncookie_xdp.PinnedMaps.{
  LibbpfMaps, BpfPinnedMap, is_minus_one, pin_entry, pin_entries, pin_maps,
}
use syncookie_xdp.PinnedMaps.Pairs.{Pairs, none_left, both, compose, every}
use syncookie_xdp.PinnedMaps.Entries.{IsPinned, IsPassed}

module _ {ℓ} {K : Type ℓ} (lib : LibbpfMaps K) (openable : List ℕ → K → Bool) where
  IsPinned-tail :
      (ms : List ℕ) (m : ℕ) (p : BpfPinnedMap) (fd : ℤ)
      → IsPinned lib openable ms p fd
      → IsPinned lib openable (m ∷ ms) p fd
  IsPinned-tail ms m p fd a = record {
    m = a.m;
    listed = tail a.listed;
    named = a.named;
    before = a.before;
    pinned = a.pinned;
    descriptor = a.descriptor;
  }

  pub IsPinned-same :
      (ms : List ℕ) (p q : BpfPinnedMap) (fd : ℤ)
      → q.name ≡ p.name
      → q.filename ≡ p.filename
      → IsPinned lib openable ms q fd
      → IsPinned lib openable ms p fd
  IsPinned-same ms p q fd n f a = record {
    m = a.m;
    listed = a.listed;
    named = subst (λ (t : List ℕ). same_text (lib.name a.m) t ≡ true) n a.named;
    before = a.before;
    pinned = subst (λ (t : List ℕ). is_pos (lib.pin a.m t a.before).0 0 ≡ true) f a.pinned;
    descriptor = a.descriptor ∙ ap (λ (t : List ℕ). lib.map_fd_of a.m (lib.pin a.m t a.before).1) f;
  }

  pin_entry-IsPassed :
      (m : ℕ) (ms : List ℕ) (p : BpfPinnedMap) (k : K)
      → IsPassed lib openable (m ∷ ms) p (pin_entry lib m p k).0
  unfolding pin_entry
  pin_entry-IsPassed m ms p k = elim (Bool-cases (same_text (lib.name m) p.name)) [
    | inl named ↦ elim (Bool-cases (is_minus_one p.map_fd)) [
      | inl missing ↦ elim (Bool-cases (is_pos (lib.pin m p.filename k).0 0)) [
        | inl ok ↦
            rw (named, pin_entry)
              (rw missing (
                rw ok (record {
                  same_name = refl;
                  same_filename = refl;
                  descriptor = inr (
                    missing,
                    record {
                      m = m;
                      listed = head refl;
                      named = named;
                      before = k;
                      pinned = ok;
                      descriptor = refl;
                    },
                  );
                })))
        | inr bad ↦
            rw (named, pin_entry)
              (rw missing
                (rw bad (record { same_name = refl; same_filename = refl; descriptor = inl refl })))
      ]
      | inr there ↦
          rw (named, pin_entry)
            (rw there (record { same_name = refl; same_filename = refl; descriptor = inl refl }))
    ]
    | inr other ↦
        rw (other, pin_entry)
          (record { same_name = refl; same_filename = refl; descriptor = inl refl })
  ]

  pin_entries-IsPassed :
      (m : ℕ) (ms : List ℕ) (ps : List BpfPinnedMap) (k : K)
      → Pairs (IsPassed lib openable (m ∷ ms)) ps (pin_entries lib m ps k).0
  unfolding pin_entries
  pin_entries-IsPassed m ms [] k = none_left
  pin_entries-IsPassed m ms (p ∷ ps) k =
      both (pin_entry-IsPassed m ms p k) (pin_entries-IsPassed m ms ps (pin_entry lib m p k).1)

  IsPassed-trans :
      (m : ℕ) (ms : List ℕ) (p q r : BpfPinnedMap)
      → IsPassed lib openable (m ∷ ms) p q
      → IsPassed lib openable ms q r
      → IsPassed lib openable (m ∷ ms) p r
  IsPassed-trans m ms p q r a b = record {
    same_name = b.same_name ∙ a.same_name;
    same_filename = b.same_filename ∙ a.same_filename;
    descriptor = elim b.descriptor [
      | inl unchanged ↦ elim a.descriptor [
        | inl still ↦ inl (unchanged ∙ still)
        | inr (missing, there) ↦
            inr (missing, subst (IsPinned lib openable (m ∷ ms) p) (sym unchanged) there)
      ]
      | inr (missing, there) ↦
          let here =
            IsPinned-same (m ∷ ms) p q r.map_fd a.same_name a.same_filename
              (IsPinned-tail ms m q r.map_fd there) in
          elim a.descriptor [
            | inl still ↦ inr (sym (ap is_minus_one still) ∙ missing, here)
            | inr (first_missing, pinned) ↦ inr (first_missing, here)
          ]
    ];
  }

  pub pin_maps-IsPassed :
      (ms : List ℕ) (ps : List BpfPinnedMap) (k : K)
      → Pairs (IsPassed lib openable ms) ps (pin_maps lib ms ps k).0
  unfolding pin_maps
  pin_maps-IsPassed [] ps k =
      every (IsPassed lib openable [])
        (λ p. record { same_name = refl; same_filename = refl; descriptor = inl refl }) ps
  pin_maps-IsPassed (m ∷ ms) ps k =
      let r = pin_entries lib m ps k in
      compose (IsPassed-trans m ms) (pin_entries-IsPassed m ms ps k) (pin_maps-IsPassed ms r.0 r.1)
