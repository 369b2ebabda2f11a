-- ===== src/RewriteHelpers/Tagged.antt =====
-- The bytes of a packet into which vlan_tag_push has put a tag, or from which vlan_tag_pop took it.
use syncookie_xdp.Prelude.{
  ℕ, ◌+◌, ◌*◌, ◌%◌, ◌^◌, ◌≤◌, ◌<◌, ◌≡◌, ◌⊎◌, inl, inr, arith, ◌==◌, Bool-cases, ap, ap₂, subst, sym,
  ◌∙◌,
}
use syncookie_xdp.Packet.{Endian, big, Mem, IsBytes, get16, put16, get_bytes, put_bytes}
use syncookie_xdp.ParsingHelpers.{swap16}
use syncookie_xdp.RewriteHelpers.{eth_p_8021q}
use syncookie_xdp.RewriteHelpers.Copies.{
  put_bytes-outside, put_bytes-inside, put16-outside, put16-swap16, put16-copy, put16-IsBytes,
  put_bytes-IsBytes,
}

-- The new packet `m`, into which the header of `source` is copied, with the tag and its type.
abbrev pub tagged : Endian → Mem → Mem → ℕ → Mem
tagged e source m vlid =
    let copied = put_bytes m 0 (get_bytes source 0 14) in
    let marked = put16 e copied 14 (swap16 e vlid) in
    put16 e (put16 e marked 16 (get16 e marked 12)) 12 (swap16 e eth_p_8021q)

module _ (e : Endian) (source : Mem) (bytes : IsBytes source) (m : Mem) (m_bytes : IsBytes m)
    (vlid : ℕ) where
  abbrev copied : Mem
  copied = put_bytes m 0 (get_bytes source 0 14)

  abbrev marked : Mem
  marked = put16 e copied 14 (swap16 e vlid)

  abbrev typed : Mem
  typed = put16 e marked 16 (get16 e marked 12)

  copied-at : (a : ℕ) → a < 14 → copied a ≡ source a
  copied-at a h =
      let same : a ≡ 0 + a = omega arith in
      ap copied same ∙ put_bytes-inside source bytes 14 m 0 0 a h ∙ ap source (sym same)

  marked-at : (a : ℕ) → a < 14 → marked a ≡ source a
  marked-at a h =
      put16-outside e copied 14 (swap16 e vlid) a (λ same. omega arith) (λ same. omega arith)
      ∙ copied-at a h

  marked-IsBytes : IsBytes marked
  marked-IsBytes =
      put16-IsBytes e copied 14 (swap16 e vlid)
        (put_bytes-IsBytes (get_bytes source 0 14) m 0 m_bytes)

  -- The last store is at 12 and 13 only.
  tagged-typed : (a : ℕ) → (a < 12) ⊎ (14 ≤ a) → tagged e source m vlid a ≡ typed a
  tagged-typed a h =
      put16-outside e typed 12 (swap16 e eth_p_8021q) a (λ same. omega arith) (λ same. omega arith)

  pub tagged-addresses : (a : ℕ) → a < 12 → tagged e source m vlid a ≡ source a
  tagged-addresses a h =
      tagged-typed a (inl h)
      ∙ put16-outside e marked 16 (get16 e marked 12) a (λ same. omega arith) (λ same. omega arith)
      ∙ marked-at a (omega arith)

  pub tagged-type : get16 big (tagged e source m vlid) 12 ≡ eth_p_8021q
  tagged-type =
      ap₂ (λ (x y : ℕ). 256 * x + y) (put16-swap16 e typed 12 eth_p_8021q 12)
        (put16-swap16 e typed 12 eth_p_8021q 13)

  pub tagged-tag : get16 big (tagged e source m vlid) 14 ≡ vlid % 2 ^ 16
  tagged-tag =
      ap₂ (λ (x y : ℕ). 256 * x + y)
        (tagged-typed 14 (omega arith)
          ∙ put16-outside e marked 16 (get16 e marked 12) 14 (λ same. omega arith)
              (λ same. omega arith)
          ∙ put16-swap16 e copied 14 vlid 14)
        (tagged-typed 15 (omega arith)
          ∙ put16-outside e marked 16 (get16 e marked 12) 15 (λ same. omega arith)
              (λ same. omega arith)
          ∙ put16-swap16 e copied 14 vlid 15)
      ∙ omega arith

  -- Behind the tag stand the type and the payload of before.
  pub tagged-rest :
      ((a : ℕ) → m (a + 4) ≡ source a)
      → (a : ℕ) → 12 ≤ a
      → tagged e source m vlid (a + 4) ≡ source a
  tagged-rest kept a h = tagged-typed (a + 4) (omega arith) ∙ elim (Bool-cases (a == 12)) [
    | inl same ↦
        subst (λ (j : ℕ). typed (j + 4) ≡ source j) (ground arith)
          ((put16-copy e marked marked 16 12 marked-IsBytes).0 ∙ marked-at 12 (omega arith))
    | inr other ↦ elim (Bool-cases (a == 13)) [
      | inl same ↦
          subst (λ (j : ℕ). typed (j + 4) ≡ source j) (ground arith)
            ((put16-copy e marked marked 16 12 marked-IsBytes).1 ∙ marked-at 13 (omega arith))
      | inr far ↦
          put16-outside e marked 16 (get16 e marked 12) (a + 4) (λ same. ground arith)
            (λ same. ground arith)
          ∙ put16-outside e copied 14 (swap16 e vlid) (a + 4) (λ same. ground arith)
              (λ same. ground arith)
          ∙ put_bytes-outside source bytes 14 m 0 0 (a + 4) (inr (ground arith))
          ∙ kept a
    ]
  ]

  pub tagged-IsBytes : IsBytes (tagged e source m vlid)
  tagged-IsBytes =
      put16-IsBytes e typed 12 (swap16 e eth_p_8021q)
        (put16-IsBytes e marked 16 (get16 e marked 12) marked-IsBytes)

-- The new packet `m`, into which the header of `source` is copied, with another type.
abbrev pub untagged : Endian → Mem → Mem → ℕ → Mem
untagged e source m h_proto = put16 e (put_bytes m 0 (get_bytes source 0 14)) 12 h_proto

module _ (e : Endian) (source : Mem) (bytes : IsBytes source) (m : Mem) where
  abbrev header : Mem
  header = put_bytes m 0 (get_bytes source 0 14)

  pub untagged-addresses : (a : ℕ) → a < 12 → untagged e source m (get16 e source 16) a ≡ source a
  untagged-addresses a h =
      let same : a ≡ 0 + a = omega arith in
      put16-outside e header 12 (get16 e source 16) a (λ at12. omega arith) (λ at13. omega arith)
      ∙ ap header same
      ∙ put_bytes-inside source bytes 14 m 0 0 a (omega arith)
      ∙ ap source (sym same)

  pub untagged-rest :
      ((a : ℕ) → m a ≡ source (a + 4))
      → (a : ℕ) → 12 ≤ a
      → untagged e source m (get16 e source 16) a ≡ source (a + 4)
  untagged-rest kept a h = elim (Bool-cases (a == 12)) [
    | inl same ↦
        subst (λ (j : ℕ). untagged e source m (get16 e source 16) j ≡ source (j + 4)) (ground arith)
          (put16-copy e header source 12 16 bytes).0
    | inr other ↦ elim (Bool-cases (a == 13)) [
      | inl same ↦
          subst (λ (j : ℕ). untagged e source m (get16 e source 16) j ≡ source (j + 4))
            (ground arith) (put16-copy e header source 12 16 bytes).1
      | inr far ↦
          put16-outside e header 12 (get16 e source 16) a (λ at12. ground arith)
            (λ at13. ground arith)
          ∙ put_bytes-outside source bytes 14 m 0 0 a (inr (ground arith))
          ∙ kept a
    ]
  ]
