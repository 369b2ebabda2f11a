-- ===== src/RewriteHelpers/Swaps.antt =====
-- The three swaps of common/rewrite_helpers.h exchange two fields and change nothing else.
use mathlib.Core.Path.{fun_ext}
use syncookie_xdp.Prelude.{
  ℕ, ◌+◌, ◌-◌, ◌/◌, ◌%◌, ◌≤◌, ◌<◌, ◌≡◌, inl, inr, refl, arith, ltb, leb, le→leb, ◌&&◌, false,
  if◌then◌else◌, Bool-cases, ap, ◌∙◌, [], ◌∷◌,
}
use syncookie_xdp.Packet.{
  Endian, little, big, Mem, IsBytes, get32, put32, put8, get_bytes, put_bytes,
}
use syncookie_xdp.Machine.{
  State, Run, ok, at, load_bytes, store_bytes, load32, store32, ◌>>=◌, ◌>>◌,
}
use syncookie_xdp.RewriteHelpers.{swap_src_dst_mac, swap_src_dst_ipv6, swap_src_dst_ipv4}
use syncookie_xdp.RewriteHelpers.Copies.{put_bytes-outside, put_bytes-inside}

-- Two neighbouring fields of `n` bytes, from `q` on, exchanged.
abbrev pub exchanged : ℕ → ℕ → Mem → Mem
exchanged q n m a =
    if leb q a && ltb a (q + n)
    then m (a + n)
    else if leb (q + n) a && ltb a (q + n + n)
    then m (a - n)
    else m a

module _ (m : Mem) (bytes : IsBytes m) (q n : ℕ) where
  copied_from :
      (x : Mem) (p r a b : ℕ)
      → p ≤ a
      → a < p + n
      → r + (a - p) ≡ b
      → put_bytes x p (get_bytes m r n) a ≡ m b
  copied_from x p r a b lo hi from =
      let same : a ≡ p + (a - p) = omega arith in
      ap (put_bytes x p (get_bytes m r n)) same
      ∙ put_bytes-inside m bytes n x p r (a - p) (omega arith)
      ∙ ap m from

  -- The second field is written first.
  exchange_back :
      put_bytes (put_bytes m (q + n) (get_bytes m q n)) q (get_bytes m (q + n) n) ≡ exchanged q n m
  exchange_back = fun_ext λ a.
      let once = put_bytes m (q + n) (get_bytes m q n) in
      elim (Bool-cases (leb q a && ltb a (q + n))) [
        | inl first ↦
            rw first
              (copied_from once q (q + n) a (a + n) (ground arith) (ground arith) (ground arith))
        | inr not_first ↦
            put_bytes-outside m bytes n once q (q + n) a (ground arith)
            ∙ elim (Bool-cases (leb (q + n) a && ltb a (q + n + n))) [
              | inl second ↦ rw not_first (
                  rw second (
                    copied_from m (q + n) q a (a - n) (ground arith) (ground arith) (ground arith)))
              | inr neither ↦
                  rw not_first
                    (rw neither (put_bytes-outside m bytes n m (q + n) q a (ground arith)))
            ]
      ]

  -- The first field is written first.
  exchange_on :
      put_bytes (put_bytes m q (get_bytes m (q + n) n)) (q + n) (get_bytes m q n) ≡ exchanged q n m
  exchange_on = fun_ext λ a.
      let once = put_bytes m q (get_bytes m (q + n) n) in
      elim (Bool-cases (leb (q + n) a && ltb a (q + n + n))) [
        | inl second ↦
            let not_first : (leb q a && ltb a (q + n)) ≡ false = ground arith in
            rw not_first (
              rw second
                (copied_from once (q + n) q a (a - n) (ground arith) (ground arith) (ground arith)))
        | inr not_second ↦
            put_bytes-outside m bytes n once (q + n) q a (ground arith)
            ∙ elim (Bool-cases (leb q a && ltb a (q + n))) [
              | inl first ↦
                  rw first
                    (copied_from m q (q + n) a (a + n) (ground arith) (ground arith) (ground arith))
              | inr neither ↦
                  rw neither
                    (rw not_second (put_bytes-outside m bytes n m q (q + n) a (ground arith)))
            ]
      ]

  -- Exchanged twice, the fields are where they were.
  pub exchanged_twice : exchanged q n (exchanged q n m) ≡ m
  exchanged_twice = fun_ext λ a. ground arith

four_bytes :
    (m : Mem) (p u v w x : ℕ) (a b c d : ℕ)
    → u % 256 ≡ a % 256
    → v % 256 ≡ b % 256
    → w % 256 ≡ c % 256
    → x % 256 ≡ d % 256
    → put8 (put8 (put8 (put8 m p u) (p + 1) v) (p + 2) w) (p + 2 + 1) x
      ≡ put_bytes m p (a ∷ b ∷ c ∷ d ∷ [])
four_bytes m p u v w x a b c d hu hv hw hx = fun_ext λ j. ground arith

-- A word of 32 bits that is loaded and stored is four bytes copied.
put32-copy :
    (e : Endian) (m source : Mem) (p q : ℕ)
    → IsBytes source
    → put32 e m p (get32 e source q) ≡ put_bytes m p (get_bytes source q 4)
put32-copy e m source p q bytes =
    let a = bytes q in
    let b = bytes (q + 1) in
    let c = bytes (q + 2) in
    let d = bytes (q + 2 + 1) in
    let third : source (q + 2) ≡ source (q + 1 + 1) = ap source (omega arith) in
    let fourth : source (q + 2 + 1) ≡ source (q + 1 + 1 + 1) = ap source (omega arith) in
    elim e as (λ h. put32 h m p (get32 h source q) ≡ put_bytes m p (get_bytes source q 4)) [
      | little ↦
          four_bytes m p (get32 little source q) (get32 little source q / 256)
            (get32 little source q / 65536) (get32 little source q / 65536 / 256) (source q)
            (source (q + 1)) (source (q + 1 + 1)) (source (q + 1 + 1 + 1)) (omega arith)
            (omega arith) (omega arith) (omega arith)
      | big ↦
          four_bytes m p (get32 big source q / 65536 / 256) (get32 big source q / 65536)
            (get32 big source q / 256) (get32 big source q) (source q) (source (q + 1))
            (source (q + 1 + 1)) (source (q + 1 + 1 + 1)) (omega arith) (omega arith) (omega arith)
            (omega arith)
    ]

module _ {T : Type 0} (s : State T) (bytes : IsBytes s.mem) where
  -- A run that exchanges two fields of `n` bytes from `q` on, and does nothing else.
  abbrev pub Exchanges : ℕ → ℕ → Run T (Unit {0}) → Type 0
  Exchanges q n run = run ≡ ok tt (record s { mem = exchanged q n s.mem })

  -- Two fields loaded, and each stored in the other's place.
  run_bytes :
      (p a b n q r : ℕ)
      → p + a + n ≤ s.len
      → p + b + n ≤ s.len
      → p + a ≡ q
      → p + b ≡ r
      → (load_bytes (at p) a n >>= λ x.
            load_bytes (at p) b n >>= λ y. store_bytes (at p) a n y >> store_bytes (at p) b n x)
          s
        ≡ ok tt (record s {
          mem = put_bytes (put_bytes s.mem q (get_bytes s.mem r n)) r (get_bytes s.mem q n);
        })
  unfolding load_bytes store_bytes
  run_bytes p a b n q r ha hb eq er =
      let first = le→leb (p + a + n) s.len ha in
      let second = le→leb (p + b + n) s.len hb in
      rw first (rw second (rw first (rw second (rw eq (rw er refl)))))

  run_words :
      (e : Endian) (p a b q r : ℕ)
      → p + a + 4 ≤ s.len
      → p + b + 4 ≤ s.len
      → p + a ≡ q
      → p + b ≡ r
      → (load32 e (at p) a >>= λ x.
            load32 e (at p) b >>= λ y. store32 e (at p) a y >> store32 e (at p) b x)
          s
        ≡ ok tt (record s {
          mem = put_bytes (put_bytes s.mem q (get_bytes s.mem r 4)) r (get_bytes s.mem q 4);
        })
  unfolding load32 store32
  run_words e p a b q r ha hb eq er =
      let first = le→leb (p + a + 4) s.len ha in
      let second = le→leb (p + b + 4) s.len hb in
      rw first (
        rw second (
          rw first (
            rw second (
              rw eq (
                rw er (
                  ap (λ (m : Mem). ok tt (record s { mem = m }))
                    (put32-copy e (put32 e s.mem q (get32 e s.mem r)) s.mem r q bytes
                      ∙ ap (λ (x : Mem). put_bytes x r (get_bytes s.mem q 4))
                          (put32-copy e s.mem s.mem q r bytes))))))))

  swap_src_dst_mac-Exchanges :
      (eth : ℕ) → eth + 12 ≤ s.len → Exchanges eth 6 (swap_src_dst_mac eth s)
  unfolding swap_src_dst_mac
  swap_src_dst_mac-Exchanges eth h =
      run_bytes eth 6 0 6 (eth + 6) eth (omega arith) (omega arith) refl (omega arith)
      ∙ ap (λ (m : Mem). ok tt (record s { mem = m })) (exchange_back s.mem bytes eth 6)

  swap_src_dst_ipv6-Exchanges :
      (ipv6 : ℕ) → ipv6 + 40 ≤ s.len → Exchanges (ipv6 + 8) 16 (swap_src_dst_ipv6 ipv6 s)
  unfolding swap_src_dst_ipv6
  swap_src_dst_ipv6-Exchanges ipv6 h =
      run_bytes ipv6 8 24 16 (ipv6 + 8) (ipv6 + 8 + 16) (omega arith) (omega arith) refl
        (omega arith)
      ∙ ap (λ (m : Mem). ok tt (record s { mem = m })) (exchange_on s.mem bytes (ipv6 + 8) 16)

  swap_src_dst_ipv4-Exchanges :
      (e : Endian) (iphdr : ℕ)
      → iphdr + 20 ≤ s.len
      → Exchanges (iphdr + 12) 4 (swap_src_dst_ipv4 e iphdr s)
  unfolding swap_src_dst_ipv4
  swap_src_dst_ipv4-Exchanges e iphdr h =
      run_words e iphdr 12 16 (iphdr + 12) (iphdr + 12 + 4) (omega arith) (omega arith) refl
        (omega arith)
      ∙ ap (λ (m : Mem). ok tt (record s { mem = m })) (exchange_on s.mem bytes (iphdr + 12) 4)

  -- Where the headers fit into the packet, each of the three swaps makes no invalid access,
  -- exchanges the two addresses of its header byte by byte, and changes nothing else; to exchange
  -- them twice gives the packet as it was.
  pub swaps-Exchanges :
      (e : Endian) (eth ipv6 iphdr : ℕ)
      → eth + 12 ≤ s.len
      → ipv6 + 40 ≤ s.len
      → iphdr + 20 ≤ s.len
      → Exchanges eth 6 (swap_src_dst_mac eth s)
        × Exchanges (ipv6 + 8) 16 (swap_src_dst_ipv6 ipv6 s)
        × Exchanges (iphdr + 12) 4 (swap_src_dst_ipv4 e iphdr s)
        × ((q n : ℕ) → exchanged q n (exchanged q n s.mem) ≡ s.mem)
  swaps-Exchanges e eth ipv6 iphdr he h6 h4 = (
    swap_src_dst_mac-Exchanges eth he,
    swap_src_dst_ipv6-Exchanges ipv6 h6,
    swap_src_dst_ipv4-Exchanges e iphdr h4,
    exchanged_twice s.mem bytes,
  )
