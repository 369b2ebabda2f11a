-- ===== src/Controller/Flags.antt =====
-- The byte of TCP flags: writing ACK or SYN leaves the six other flags alone.
use syncookie_xdp.Prelude.{ℕ, ◌%◌, ◌<◌, ◌≡◌, ◌∙◌, arith}
use syncookie_xdp.Packet.{Endian, little, big, Mem, get_bit, put_bit}
use syncookie_xdp.Headers.Tcp
use syncookie_xdp.Controller.Layout.{other_flags}

-- The bytes `b` and `b'` agree in the flags other than ACK and SYN.
pub record SameOthers (e : Endian) (b b' : ℕ) : Type 0 where
  pub cwr : get_bit e b' Tcp.cwr ≡ get_bit e b Tcp.cwr
  pub ece : get_bit e b' Tcp.ece ≡ get_bit e b Tcp.ece
  pub urg : get_bit e b' Tcp.urg ≡ get_bit e b Tcp.urg
  pub psh : get_bit e b' Tcp.psh ≡ get_bit e b Tcp.psh
  pub rst : get_bit e b' Tcp.rst ≡ get_bit e b Tcp.rst
  pub fin : get_bit e b' Tcp.fin ≡ get_bit e b Tcp.fin

pub other_flags-SameOthers :
    (e : Endian) (m m' : Mem)
    → m' 46 ≡ m 46
    → SameOthers e (m 47) (m' 47)
    → other_flags e m' ≡ other_flags e m
other_flags-SameOthers e m m' h s = cc (s.cwr, s.ece, s.urg, s.psh, s.rst, s.fin)

module _ (b : ℕ) (byte : b < 256) (v : ℕ) (bit : v < 2) where
  pub put_ack-SameOthers : (e : Endian) → SameOthers e b (put_bit e b Tcp.ack v % 256)
  put_ack-SameOthers little = omega arith
  put_ack-SameOthers big = omega arith

  pub put_syn-SameOthers : (e : Endian) → SameOthers e b (put_bit e b Tcp.syn v % 256)
  put_syn-SameOthers little = omega arith
  put_syn-SameOthers big = omega arith

pub SameOthers-trans :
    {e : Endian} {a b c : ℕ} → SameOthers e a b → SameOthers e b c → SameOthers e a c
SameOthers-trans s t = record {
  cwr = t.cwr ∙ s.cwr;
  ece = t.ece ∙ s.ece;
  urg = t.urg ∙ s.urg;
  psh = t.psh ∙ s.psh;
  rst = t.rst ∙ s.rst;
  fin = t.fin ∙ s.fin;
}
