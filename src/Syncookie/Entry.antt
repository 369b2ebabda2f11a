-- ===== src/Syncookie/Entry.antt =====
-- Where the entry program goes: which packets reach `controller`, and with which headers.
use syncookie_xdp.Prelude.{
  ℕ, ◌≤◌, ◌<◌, ◌≡◌, ◌↔◌, ◌⊎◌, inl, inr, Bool, true, false, ◌&&◌, List, arith, leb, leb→le, ◌==◌,
  Bool-cases,
}
use syncookie_xdp.Packet.{Endian, get16}
use syncookie_xdp.Machine.{KernelMap, State, ok, fault, null, at}
use syncookie_xdp.Controller.{xdp_pass, compute_connection, controller}
use syncookie_xdp.Controller.Layout.{parsed, headers_size}
use syncookie_xdp.Syncookie.{eth_p_ip, ipproto_tcp, syncookie_fn}

-- The packet holds an Ethernet and an IPv4 header, the host reads ETH_P_IP as the EtherType, and
-- the protocol is TCP.
pub record IsTcp {T : Type 0} (e : Endian) (s : State T) : Type 0 where
  pub fits : 34 ≤ s.len
  pub ether_type : get16 e s.mem 12 ≡ eth_p_ip
  pub protocol : s.mem 23 ≡ ipproto_tcp

-- The same as a test.
abbrev pub is_tcp : {T : Type 0} → Endian → State T → Bool
is_tcp e s = leb 34 s.len && (get16 e s.mem 12 == eth_p_ip && s.mem 23 == ipproto_tcp)

pub is_tcp_iff : {T : Type 0} (e : Endian) (s : State T) → (is_tcp e s ≡ true) ↔ IsTcp e s
is_tcp_iff e s = (λ h. ground arith, λ h. ground arith)

pub IsTcp-or : {T : Type 0} (e : Endian) (s : State T) → IsTcp e s ⊎ ¬ IsTcp e s
IsTcp-or e s = elim (Bool-cases (is_tcp e s)) [
  | inl h ↦ inl ((is_tcp_iff e s).0 h)
  | inr h ↦ inr (λ tcp. cc (h, (is_tcp_iff e s).1 tcp))
]

-- A packet holds its TCP header, or it ends before that.
pub fits-or : {T : Type 0} (s : State T) → (headers_size ≤ s.len) ⊎ (s.len < headers_size)
fits-or s = elim (Bool-cases (leb headers_size s.len)) [
  | inl fits ↦ inl (leb→le _ _ fits)
  | inr short ↦ inr (ground arith)
]

module _ (M : KernelMap) (e : Endian) (slot : List ℕ) (s : State M.Table) where
  -- With the TCP header missing the pointer to it is still NULL.
  controller-null :
      34 ≤ s.len → controller M e slot (record { ether = at 0; ipv4 = at 14; tcp = null }) s ≡ fault
  unfolding controller compute_connection
  controller-null fits = ground arith

  pub entry-tcp :
      IsTcp e s → headers_size ≤ s.len → syncookie_fn M e slot s ≡ controller M e slot parsed s
  unfolding syncookie_fn
  entry-tcp tcp fits = ground arith

  pub entry-short : IsTcp e s → s.len < headers_size → syncookie_fn M e slot s ≡ fault
  unfolding syncookie_fn
  entry-short tcp short = ground (arith, controller-null)

  not_tcp : is_tcp e s ≡ false → syncookie_fn M e slot s ≡ ok xdp_pass s
  unfolding syncookie_fn
  not_tcp other = ground arith

  pub entry-other : ¬ IsTcp e s → syncookie_fn M e slot s ≡ ok xdp_pass s
  entry-other other = elim (Bool-cases (is_tcp e s)) [
    | inl h ↦ absurd (other ((is_tcp_iff e s).0 h))
    | inr h ↦ not_tcp h
  ]
