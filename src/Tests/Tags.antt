-- ===== src/Tests/Tags.antt =====
-- Two VLAN tags on a frame that has one already, on a little-endian host.
use syncookie_xdp.Prelude.{ℕ, ◌≡◌, inl, inr, refl, some, List, [], ◌∷◌, arith, ltb, Bool-cases}
use syncookie_xdp.Packet.{little}
use syncookie_xdp.Machine.{State, ok}
use syncookie_xdp.ParsingHelpers.{parse_ethhdr, here, tag}
use syncookie_xdp.RewriteHelpers.{vlan_tag_push}
use syncookie_xdp.RewriteHelpers.Stack.{IsRoomy, push_all, pop_all, pop_all-push_all}
use syncookie_xdp.RewriteHelpers.Parsed.{IsBehind, parse_ethhdr-push_all}
use syncookie_xdp.Tests.Helpers.{adjust_head, adjust_head-IsAdjust}
use syncookie_xdp.Tests.Vlan.{vlan_frame, vlan_bytes-IsBytes}

adjust_head-IsRoomy : IsRoomy adjust_head
adjust_head-IsRoomy = record {
  gives = λ s room. elim (Bool-cases (ltb s.len 18)) [
    | inl short ↦ absurd (ground arith)
    | inr enough ↦ rw enough refl
  ];
}

abbrev vlids : List ℕ
vlids = 0x12345 ∷ 7 ∷ []

two_tags : (t : State ℕ) × (push_all little adjust_head vlids vlan_frame ≡ some t)
unfolding push_all vlan_tag_push
two_tags = (_, refl)

pop_all-push_all_example :
    pop_all little adjust_head 2 two_tags.0 ≡ some (7 ∷ 0x2345 ∷ [], vlan_frame)
pop_all-push_all_example =
    pop_all-push_all little adjust_head adjust_head-IsAdjust adjust_head-IsRoomy vlids vlan_frame
      two_tags.0 (omega arith) vlan_bytes-IsBytes two_tags.1

-- The tag of the frame ends with the type 0x0800.
vlan_frame-IsBehind : IsBehind vlan_frame 1 16
vlan_frame-IsBehind = record {
  path = tag (inl refl) (omega arith) here;
  last = inl (λ v. elim v [ inl e ↦ omega arith | inr e ↦ omega arith ]);
  fits = omega arith;
  behind = omega arith;
}

parse_ethhdr-push_all_example :
    (parse_ethhdr little 0 vlan_frame ≡ ok (some (0x0800, 18)) vlan_frame)
    × (parse_ethhdr little 0 two_tags.0 ≡ ok (some (0x0800, 26)) two_tags.0)
parse_ethhdr-push_all_example =
    parse_ethhdr-push_all little adjust_head adjust_head-IsAdjust vlids vlan_frame two_tags.0 1 16
      vlan_bytes-IsBytes vlan_frame-IsBehind (omega arith) two_tags.1
