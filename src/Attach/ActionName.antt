-- ===== src/Attach/ActionName.antt =====
-- common/common_user_bpf_xdp.c: the names of the XDP actions.
use syncookie_xdp.Prelude.{
  ℕ, zero, suc, ◌+◌, ◌≡◌, ◌≤◌, refl, Option, none, some, List, [], ◌∷◌, ltb, if◌then◌else◌, codes,
  same_text, ◌⊎◌, get_elem?, arith, inl, inr,
}

-- XDP_ACTION_MAX of this file: XDP_UNKNOWN is XDP_REDIRECT + 1.
abbrev pub names_max : ℕ
names_max = 4 + 1 + 1

abbrev pub xdp_action_names : List (List ℕ)
xdp_action_names =
    codes "XDP_ABORTED"
    ∷ codes "XDP_DROP"
    ∷ codes "XDP_PASS"
    ∷ codes "XDP_TX"
    ∷ codes "XDP_REDIRECT"
    ∷ codes "XDP_UNKNOWN"
    ∷ []

-- `none` is NULL.
unfoldable pub action2str : ℕ → Option (List ℕ)
action2str action = if ltb action names_max then get_elem? xdp_action_names action else none

-- Where a text stands in a list of texts.
abbrev pub index_of : List ℕ → List (List ℕ) → ℕ
index_of t [] = 0
index_of t (name ∷ names) = if same_text name t then 0 else suc (index_of t names)

-- action2str gives NULL exactly from XDP_ACTION_MAX on; below, it gives the text that stands in
-- xdp_action_names at the number of the action, and nowhere before, so no two actions have one name.
pub action2str-cases :
    (action : ℕ)
    → ((names_max ≤ action) × (action2str action ≡ none))
      ⊎ ((name : List ℕ) × (action2str action ≡ some name)
          × (index_of name xdp_action_names ≡ action))
unfolding action2str same_text
action2str-cases zero = inr (codes "XDP_ABORTED", refl, refl)
action2str-cases (suc zero) = inr (codes "XDP_DROP", refl, refl)
action2str-cases (suc (suc zero)) = inr (codes "XDP_PASS", refl, refl)
action2str-cases (suc (suc (suc zero))) = inr (codes "XDP_TX", refl, refl)
action2str-cases (suc (suc (suc (suc zero)))) = inr (codes "XDP_REDIRECT", refl, refl)
action2str-cases (suc (suc (suc (suc (suc zero))))) = inr (codes "XDP_UNKNOWN", refl, refl)
action2str-cases (suc (suc (suc (suc (suc (suc n)))))) = inl (omega arith, ground arith)
