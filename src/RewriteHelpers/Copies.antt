-- ===== src/RewriteHelpers/Copies.antt =====
-- What a copy of bytes leaves at each place of a packet.
use syncookie_xdp.Prelude.{
  ℕ, zero, suc, ◌+◌, ◌%◌, ◌≤◌, ◌<◌, ◌≡◌, ◌⊎◌, refl, List, [], ◌∷◌, arith, ap, ◌*◌, ◌/◌, ◌≢◌, ◌∙◌,
}
use syncookie_xdp.Packet.{
  Mem, IsBytes, put8, get16, put16, Endian, little, big, get_bytes, put_bytes,
}
use syncookie_xdp.ParsingHelpers.{swap16}

module _ (source : Mem) (bytes : IsBytes source) where
  pub put_bytes-outside :
      (n : ℕ) (m : Mem) (p q a : ℕ)
      → (a < p) ⊎ (p + n ≤ a)
      → put_bytes m p (get_bytes source q n) a ≡ m a
  put_bytes-outside zero m p q a h = refl
  put_bytes-outside (suc n) m p q a h =
      put_bytes-outside n (put8 m p (source q)) (p + 1) (q + 1) a (omega arith) ∙ ground arith

  pub put_bytes-inside :
      (n : ℕ) (m : Mem) (p q i : ℕ)
      → i < n
      → put_bytes m p (get_bytes source q n) (p + i) ≡ source (q + i)
  put_bytes-inside zero m p q i h = absurd (omega arith)
  put_bytes-inside (suc n) m p q zero h =
      put_bytes-outside n (put8 m p (source q)) (p + 1) (q + 1) (p + 0) (omega arith)
      ∙ (let b = bytes q in
          let keep : source q % 256 ≡ source q = omega arith in
          let same : q ≡ q + 0 = omega arith in ground (arith, keep, ap source same))
  put_bytes-inside (suc n) m p q (suc i) h =
      let here : p + suc i ≡ p + 1 + i = omega arith in
      let there : q + 1 + i ≡ q + suc i = omega arith in
      rw here
        (put_bytes-inside n (put8 m p (source q)) (p + 1) (q + 1) i (omega arith) ∙ ap source there)

-- A store of 16 bits is seen at its two places only.
pub put16-outside : (e : Endian) (m : Mem) (p v a : ℕ) → a ≢ p → a ≢ p + 1 → put16 e m p v a ≡ m a
put16-outside little m p v a h k = ground arith
put16-outside big m p v a h k = ground arith

-- A word that is stored with bpf_htons stands in the network's order.
pub put16-swap16 :
    (e : Endian) (m : Mem) (p v a : ℕ) → put16 e m p (swap16 e v) a ≡ put16 big m p v a
put16-swap16 little m p v a =
    let low : (v % 256 * 256 + v / 256 % 256) % 256 ≡ v / 256 % 256 = omega arith in
    let high : (v % 256 * 256 + v / 256 % 256) / 256 % 256 ≡ v % 256 = omega arith in
    ground (arith, low, high)
put16-swap16 big m p v a = refl

-- A word that is loaded and stored is two bytes copied.
pub put16-copy :
    (e : Endian) (m source : Mem) (p q : ℕ)
    → IsBytes source
    → (put16 e m p (get16 e source q) p ≡ source q)
      × (put16 e m p (get16 e source q) (p + 1) ≡ source (q + 1))
put16-copy little m source p q bytes =
    let a = bytes q in
    let b = bytes (q + 1) in
    let low : (source q + 256 * source (q + 1)) % 256 ≡ source q = omega arith in
    let high : (source q + 256 * source (q + 1)) / 256 % 256 ≡ source (q + 1) = omega arith in
    (ground (arith, low), ground (arith, high))
put16-copy big m source p q bytes =
    let a = bytes q in
    let b = bytes (q + 1) in
    let low : (256 * source q + source (q + 1)) % 256 ≡ source (q + 1) = omega arith in
    let high : (256 * source q + source (q + 1)) / 256 % 256 ≡ source q = omega arith in
    (ground (arith, high), ground (arith, low))

pub put8-IsBytes : (m : Mem) (p v : ℕ) → IsBytes m → IsBytes (put8 m p v)
put8-IsBytes m p v bytes a = let h = bytes a in ground arith

pub put16-IsBytes : (e : Endian) (m : Mem) (p v : ℕ) → IsBytes m → IsBytes (put16 e m p v)
put16-IsBytes little m p v bytes =
    put8-IsBytes (put8 m p v) (p + 1) (v / 256) (put8-IsBytes m p v bytes)
put16-IsBytes big m p v bytes =
    put8-IsBytes (put8 m p (v / 256)) (p + 1) v (put8-IsBytes m p (v / 256) bytes)

pub put_bytes-IsBytes : (bs : List ℕ) (m : Mem) (p : ℕ) → IsBytes m → IsBytes (put_bytes m p bs)
put_bytes-IsBytes [] m p bytes = bytes
put_bytes-IsBytes (b ∷ bs) m p bytes =
    put_bytes-IsBytes bs (put8 m p b) (p + 1) (put8-IsBytes m p b bytes)
