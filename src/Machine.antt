-- ===== src/Machine.antt =====
-- What a program run can do: read and write the packet through pointers, and use the table of
-- connections. src/syncookie.c declares the table; the kernel implements it.
use syncookie_xdp.Prelude.{ℕ, ◌+◌, List, Option, leb, if◌then◌else◌}
use syncookie_xdp.Packet.{
  Endian, Mem, get16, put16, get32, put32, get_bytes, put_bytes, put8, get_bit, put_bit,
  second_nibble,
}

-- The kernel's map, behind bpf_map_lookup_elem and bpf_map_update_elem. A key is the bytes that
-- the pointer argument points to. `lookup` gives the value, or `none` for a NULL pointer;
-- `update` takes key, value and flags, and gives the table after the call.
pub record KernelMap : Type 1 where
  pub Table : Type 0
  pub lookup : Table → List ℕ → Option ℕ
  pub update : Table → List ℕ → ℕ → ℕ → Table

-- A pointer into the packet, as an offset from `data`.
pub data Ptr : Type 0 where
  null : Ptr
  at : ℕ → Ptr

-- `len` is `data_end - data`.
pub record State (T : Type 0) : Type 0 where
  pub len : ℕ
  pub mem : Mem
  pub table : T

-- `fault` is an access through NULL or outside the packet, which C leaves undefined.
pub data Run (T : Type 0) (A : Type 0) : Type 0 where
  ok : A → State T → Run T A
  fault : Run T A

abbrev pub Cmd : Type 0 → Type 0 → Type 0
Cmd T A = State T → Run T A

module _ {T : Type 0} where
  abbrev pub pure : {A : Type 0} → A → Cmd T A
  pure = ok

  abbrev pub and_then : {A B : Type 0} → Run T A → (A → Cmd T B) → Run T B
  and_then (ok a s) k = k a s
  and_then fault k = fault

  infixl 5 ◌>>=◌ ◌>>◌
  abbrev pub ◌>>=◌ : {A B : Type 0} → Cmd T A → (A → Cmd T B) → Cmd T B
  m >>= k = λ s. and_then (m s) k

  abbrev pub ◌>>◌ : {A B : Type 0} → Cmd T A → Cmd T B → Cmd T B
  m >> k = m >>= λ _. k

  -- An access of `size` bytes at `off` behind the pointer.
  abbrev pub access : {A : Type 0} → Ptr → ℕ → ℕ → (ℕ → State T → Run T A) → Cmd T A
  access null off size k s = fault
  access (at p) off size k s = if leb (p + off + size) s.len then k (p + off) s else fault

  unfoldable pub load8 : Ptr → ℕ → Cmd T ℕ
  load8 p off = access p off 1 λ a s. ok (s.mem a) s

  unfoldable pub load16 : Endian → Ptr → ℕ → Cmd T ℕ
  load16 e p off = access p off 2 λ a s. ok (get16 e s.mem a) s

  unfoldable pub load32 : Endian → Ptr → ℕ → Cmd T ℕ
  load32 e p off = access p off 4 λ a s. ok (get32 e s.mem a) s

  unfoldable pub load_bytes : Ptr → ℕ → ℕ → Cmd T (List ℕ)
  load_bytes p off n = access p off n λ a s. ok (get_bytes s.mem a n) s

  unfoldable pub store16 : Endian → Ptr → ℕ → ℕ → Cmd T (Unit {0})
  store16 e p off v = access p off 2 λ a s. ok tt (record s { mem = put16 e s.mem a v })

  unfoldable pub store32 : Endian → Ptr → ℕ → ℕ → Cmd T (Unit {0})
  store32 e p off v = access p off 4 λ a s. ok tt (record s { mem = put32 e s.mem a v })

  unfoldable pub store_bytes : Ptr → ℕ → ℕ → List ℕ → Cmd T (Unit {0})
  store_bytes p off n bs = access p off n λ a s. ok tt (record s { mem = put_bytes s.mem a bs })

  -- The one-bit field at place `i` of the byte at `off`.
  unfoldable pub load_bit : Endian → Ptr → ℕ → ℕ → Cmd T ℕ
  load_bit e p off i = access p off 1 λ a s. ok (get_bit e (s.mem a) i) s

  unfoldable pub store_bit : Endian → Ptr → ℕ → ℕ → ℕ → Cmd T (Unit {0})
  store_bit e p off i v =
      access p off 1 λ a s. ok tt (record s { mem = put8 s.mem a (put_bit e (s.mem a) i v) })

  unfoldable pub load_second_nibble : Endian → Ptr → ℕ → Cmd T ℕ
  load_second_nibble e p off = access p off 1 λ a s. ok (second_nibble e (s.mem a)) s

  -- `data_end`, as an offset.
  unfoldable pub data_end : Cmd T ℕ
  data_end s = ok s.len s
