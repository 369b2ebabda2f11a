-- ===== src/Controller/Ack.antt =====
-- What handle_ack writes into the packet and into the table.
use syncookie_xdp.Prelude.{ℕ, ◌+◌, ◌%◌, ◌^◌, ◌≡◌, refl, arith}
use syncookie_xdp.Packet.{Endian, little, big, Mem, put_bit}
use syncookie_xdp.Headers.Tcp
use syncookie_xdp.Controller.Layout.{IsBytes, seq_no, ack_no, flag}
use syncookie_xdp.Controller.Reply.{ack_reply}
use syncookie_xdp.Controller.Returned.{IsReturned}
use syncookie_xdp.Controller.Flags.{
  SameOthers, other_flags-SameOthers, put_ack-SameOthers, put_syn-SameOthers, SameOthers-trans,
}

-- A pure ACK whose numbers are those of the packet exchanged, the sequence number one higher.
pub record IsAck (e : Endian) (m m' : Mem) : Type 0 where
  pub returned : IsReturned e m m'
  pub continues : seq_no e m' ≡ ack_no e m
  pub acknowledges : ack_no e m' ≡ (seq_no e m + 1) % 2 ^ 32
  pub ack_set : flag e m' Tcp.ack ≡ 1
  pub syn_cleared : flag e m' Tcp.syn ≡ 0

module _ (m : Mem) (bytes : IsBytes m) where
  flags_of_ack : (e : Endian) → SameOthers e (m 47) (ack_reply e m 47)
  unfolding ack_reply
  flags_of_ack little =
      let b : ℕ = put_bit little (m 47) Tcp.ack 1 % 256 in
      SameOthers-trans (put_ack-SameOthers (m 47) (bytes 47) 1 (omega arith) little)
        (put_syn-SameOthers b (omega arith) 0 (omega arith) little)
  flags_of_ack big =
      let b : ℕ = put_bit big (m 47) Tcp.ack 1 % 256 in
      SameOthers-trans (put_ack-SameOthers (m 47) (bytes 47) 1 (omega arith) big)
        (put_syn-SameOthers b (omega arith) 0 (omega arith) big)

  ack_reply-IsReturned : (e : Endian) → IsReturned e m (ack_reply e m)
  unfolding ack_reply
  ack_reply-IsReturned little = record {
    to_sender = ground (arith, bytes 6, bytes 7, bytes 8, bytes 9, bytes 10, bytes 11);
    source = omega (arith, bytes 30, bytes 31, bytes 32, bytes 33);
    destination = omega (arith, bytes 26, bytes 27, bytes 28, bytes 29);
    from_port = omega (arith, bytes 36, bytes 37);
    to_port = omega (arith, bytes 34, bytes 35);
    others = other_flags-SameOthers little m (ack_reply little m) refl (flags_of_ack little);
    rest = λ a h. ground arith;
  }
  ack_reply-IsReturned big = record {
    to_sender = ground (arith, bytes 6, bytes 7, bytes 8, bytes 9, bytes 10, bytes 11);
    source = omega (arith, bytes 30, bytes 31, bytes 32, bytes 33);
    destination = omega (arith, bytes 26, bytes 27, bytes 28, bytes 29);
    from_port = omega (arith, bytes 36, bytes 37);
    to_port = omega (arith, bytes 34, bytes 35);
    others = other_flags-SameOthers big m (ack_reply big m) refl (flags_of_ack big);
    rest = λ a h. ground arith;
  }

  pub ack_reply-IsAck : (e : Endian) → IsAck e m (ack_reply e m)
  unfolding ack_reply
  ack_reply-IsAck little = record {
    returned = ack_reply-IsReturned little;
    continues = omega (arith, bytes 42, bytes 43, bytes 44, bytes 45);
    acknowledges = omega arith;
    ack_set = omega (arith, bytes 47);
    syn_cleared = omega (arith, bytes 47);
  }
  ack_reply-IsAck big = record {
    returned = ack_reply-IsReturned big;
    continues = omega (arith, bytes 42, bytes 43, bytes 44, bytes 45);
    acknowledges = omega arith;
    ack_set = omega (arith, bytes 47);
    syn_cleared = omega (arith, bytes 47);
  }
