-- ===== src/Controller/Decision.antt =====
-- What `controller` decides, as a function of the three headers and of whether the connection is
-- in the table, and the proof that the code decides so.
use syncookie_xdp.Prelude.{
  ℕ, ◌+◌, ◌-◌, ◌%◌, ◌^◌, ◌≤◌, ◌<◌, ◌≡◌, Bool, true, false, List, [], ◌∷◌, Option, none, some, arith,
  ◌==◌, if◌then◌else◌, Bool-cases, inl, inr, refl,
}
use syncookie_xdp.Packet.{Endian, Mem, second_nibble}
use syncookie_xdp.Machine.{KernelMap, State, Run, Cmd, ok, load32, load_bit, load_second_nibble}
use syncookie_xdp.Headers.{connection_bytes}
use syncookie_xdp.Headers.Tcp
use syncookie_xdp.Controller.{
  XdpAction, xdp_drop, xdp_pass, xdp_tx, insert, bpf_any, compute_connection, cookie_of,
  compute_cookie, any_set, other_fields, unwanted_flags, handle_ack, check_ack, new_connection,
  controller,
}
use syncookie_xdp.Controller.Layout.{
  parsed, headers_size, IsBytes, ack_no, flag, connection, other_flags,
}
use syncookie_xdp.Controller.Cookie.{connection-IsConnection, ack_no-lt, cookie_of-lt}
use syncookie_xdp.Controller.Reply.{syn_reply, ack_reply, handle_syn-ok, handle_ack-ok, within}

pub data Decision : Type 0 where
  pass_on refuse answer accept : Decision

abbrev pub has_one : List ℕ → Bool
has_one [] = false
has_one (v ∷ vs) = if v == 1 then true else has_one vs

-- By the SYN flag, the ACK flag, and whether the ACK acknowledges the cookie.
abbrev pub handshake : Bool → Bool → Bool → Decision
handshake true true c = refuse
handshake true false c = answer
handshake false true true = accept
handshake false true false = refuse
handshake false false c = refuse

abbrev pub expected : Endian → Mem → ℕ
expected e m = (cookie_of (connection e m) + 1) % 2 ^ 32

abbrev pub decide_new : Endian → Mem → Decision
decide_new e m =
    if has_one (other_flags e m)
    then refuse
    else handshake (flag e m Tcp.syn == 1) (flag e m Tcp.ack == 1) (ack_no e m == expected e m)

abbrev pub decide : Option ℕ → Endian → Mem → Decision
decide (some _) e m = pass_on
decide none e m = decide_new e m

module _ (M : KernelMap) (e : Endian) (slot : List ℕ) where
  abbrev pub carry_out : Decision → State M.Table → Run M.Table XdpAction
  carry_out pass_on s = ok xdp_pass s
  carry_out refuse s = ok xdp_drop s
  carry_out answer s =
      ok xdp_tx (record s { mem = syn_reply e (cookie_of (connection e s.mem)) s.mem })
  carry_out accept s =
      ok xdp_tx (record s { mem = ack_reply e s.mem; table = M.update s.table slot insert bpf_any })

-- What the table holds for the connection of the packet.
abbrev pub known : (M : KernelMap) → Endian → State M.Table → Option ℕ
known M e s = M.lookup s.table (connection_bytes e (connection e s.mem))

module _ (M : KernelMap) (e : Endian) (s : State M.Table) (fits : headers_size ≤ s.len) where
  compute_connection-ok : compute_connection e parsed s ≡ ok (connection e s.mem) s
  unfolding compute_connection
  compute_connection-ok = ground arith

  compute_cookie-ok : compute_cookie e parsed s ≡ ok (cookie_of (connection e s.mem)) s
  unfolding compute_cookie
  compute_cookie-ok = ground arith

  -- The commands read these values, and change nothing.
  abbrev Reads : List (Cmd M.Table ℕ) → List ℕ → Type 0
  Reads [] [] = Unit
  Reads (c ∷ cs) (v ∷ vs) = (c s ≡ ok v s) × Reads cs vs
  Reads _ _ = ⊥

  any_set-has_one :
      (cs : List (Cmd M.Table ℕ)) (vs : List ℕ) → Reads cs vs → any_set cs s ≡ ok (has_one vs) s
  unfolding any_set
  any_set-has_one [] [] r = refl
  any_set-has_one [] (v ∷ vs) r = absurd r
  any_set-has_one (c ∷ cs) [] r = absurd r
  any_set-has_one (c ∷ cs) (v ∷ vs) r = elim (Bool-cases (v == 1)) [
    | inl one ↦ rw (r.0, one)
    | inr other ↦ rw (r.0, other) (any_set-has_one cs vs r.1)
  ]

  load_flag-ok : (i : ℕ) → load_bit e parsed.tcp Tcp.flags i s ≡ ok (flag e s.mem i) s
  unfolding load_bit
  load_flag-ok i = rw (within M e s fits 48 (omega arith))

  load_res-ok :
      load_second_nibble e parsed.tcp Tcp.data_offset s ≡ ok (second_nibble e (s.mem 46)) s
  unfolding load_second_nibble
  load_res-ok = rw (within M e s fits 47 (omega arith))

  others-ok : any_set (other_fields e parsed) s ≡ ok (has_one (other_flags e s.mem)) s
  unfolding other_fields
  others-ok = any_set-has_one (other_fields e parsed) (other_flags e s.mem) (
    load_res-ok,
    (
      load_flag-ok Tcp.cwr,
      (
        load_flag-ok Tcp.ece,
        (
          load_flag-ok Tcp.urg,
          (load_flag-ok Tcp.psh, (load_flag-ok Tcp.rst, (load_flag-ok Tcp.fin, tt))),
        ),
      ),
    ),
  )

  -- Whether the first condition of `controller` holds.
  abbrev unwanted : Bool
  unwanted =
      if flag e s.mem Tcp.syn == 1
      then (if flag e s.mem Tcp.ack == 1 then true else has_one (other_flags e s.mem))
      else has_one (other_flags e s.mem)

  unwanted_flags-ok : unwanted_flags e parsed s ≡ ok unwanted s
  unfolding unwanted_flags
  unwanted_flags-ok = ground (arith, others-ok, load_flag-ok Tcp.syn, load_flag-ok Tcp.ack)

  check_ack-ok :
      (slot : List ℕ) (cookie : ℕ)
      → check_ack M e slot parsed cookie s ≡ (
          if flag e s.mem Tcp.ack == 1
          then (if (ack_no e s.mem + 2 ^ 32 - 1) % 2 ^ 32 == cookie
              then handle_ack M e slot parsed s
              else ok xdp_drop s)
          else ok xdp_drop s)
  unfolding check_ack load32
  check_ack-ok slot cookie = ground (arith, load_flag-ok Tcp.ack)

-- The code subtracts 1 from the number, the specification adds 1 to the cookie.
acknowledges_test :
    (a c : ℕ) → a < 2 ^ 32 → c < 2 ^ 32 → ((a + 2 ^ 32 - 1) % 2 ^ 32 == c) ≡ (a == (c + 1) % 2 ^ 32)
acknowledges_test a c ha hc = ground arith

module _ (M : KernelMap) (e : Endian) (slot : List ℕ) (s : State M.Table)
    (fits : headers_size ≤ s.len) (bytes : IsBytes s.mem) where
  new_connection-decide :
      new_connection M e slot parsed s ≡ carry_out M e slot (decide_new e s.mem) s
  unfolding new_connection
  new_connection-decide = ground (
    arith,
    compute_cookie-ok M e s fits,
    unwanted_flags-ok M e s fits,
    load_flag-ok M e s fits Tcp.syn,
    check_ack-ok M e s fits slot (cookie_of (connection e s.mem)),
    handle_syn-ok M e s fits (cookie_of (connection e s.mem)),
    handle_ack-ok M e s fits slot,
    acknowledges_test (ack_no e s.mem) (cookie_of (connection e s.mem)) (ack_no-lt e s.mem bytes)
        (cookie_of-lt (connection e s.mem) (connection-IsConnection e s.mem bytes)),
  )

  -- On a packet that holds the three headers `controller` does what `decide` says.
  pub controller-decide :
      controller M e slot parsed s ≡ carry_out M e slot (decide (known M e s) e s.mem) s
  unfolding controller
  controller-decide = ground (arith, compute_connection-ok M e s fits, new_connection-decide)
