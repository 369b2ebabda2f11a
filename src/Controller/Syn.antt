-- ===== src/Controller/Syn.antt =====
-- What handle_syn writes into the packet, field by field.
use syncookie_xdp.Prelude.{ℕ, ◌+◌, ◌%◌, ◌^◌, ◌<◌, ◌≡◌, refl, arith}
use syncookie_xdp.Packet.{Endian, little, big, Mem}
use syncookie_xdp.Headers.Tcp
use syncookie_xdp.Controller.Layout.{IsBytes, seq_no, ack_no, flag}
use syncookie_xdp.Controller.Reply.{syn_reply}
use syncookie_xdp.Controller.Returned.{IsReturned}
use syncookie_xdp.Controller.Flags.{other_flags-SameOthers, put_ack-SameOthers}

-- A SYN-ACK that carries the cookie and acknowledges one more than the sequence number.
pub record IsSynAck (e : Endian) (cookie : ℕ) (m m' : Mem) : Type 0 where
  pub returned : IsReturned e m m'
  pub carries : seq_no e m' ≡ cookie
  pub acknowledges : ack_no e m' ≡ (seq_no e m + 1) % 2 ^ 32
  pub ack_set : flag e m' Tcp.ack ≡ 1
  pub syn_kept : flag e m' Tcp.syn ≡ flag e m Tcp.syn

module _ (m : Mem) (bytes : IsBytes m) (cookie : ℕ) (small : cookie < 2 ^ 32) where
  syn_reply-IsReturned : (e : Endian) → IsReturned e m (syn_reply e cookie m)
  unfolding syn_reply
  syn_reply-IsReturned little = record {
    to_sender = ground (arith, bytes 6, bytes 7, bytes 8, bytes 9, bytes 10, bytes 11);
    source = omega (arith, bytes 30, bytes 31, bytes 32, bytes 33);
    destination = omega (arith, bytes 26, bytes 27, bytes 28, bytes 29);
    from_port = omega (arith, bytes 36, bytes 37);
    to_port = omega (arith, bytes 34, bytes 35);
    others =
        other_flags-SameOthers little m (syn_reply little cookie m) refl
          (put_ack-SameOthers (m 47) (bytes 47) 1 (omega arith) little);
    rest = λ a h. ground arith;
  }
  syn_reply-IsReturned big = record {
    to_sender = ground (arith, bytes 6, bytes 7, bytes 8, bytes 9, bytes 10, bytes 11);
    source = omega (arith, bytes 30, bytes 31, bytes 32, bytes 33);
    destination = omega (arith, bytes 26, bytes 27, bytes 28, bytes 29);
    from_port = omega (arith, bytes 36, bytes 37);
    to_port = omega (arith, bytes 34, bytes 35);
    others =
        other_flags-SameOthers big m (syn_reply big cookie m) refl
          (put_ack-SameOthers (m 47) (bytes 47) 1 (omega arith) big);
    rest = λ a h. ground arith;
  }

  pub syn_reply-IsSynAck : (e : Endian) → IsSynAck e cookie m (syn_reply e cookie m)
  unfolding syn_reply
  syn_reply-IsSynAck little = record {
    returned = syn_reply-IsReturned little;
    carries = omega arith;
    acknowledges = omega arith;
    ack_set = omega (arith, bytes 47);
    syn_kept = omega (arith, bytes 47);
  }
  syn_reply-IsSynAck big = record {
    returned = syn_reply-IsReturned big;
    carries = omega arith;
    acknowledges = omega arith;
    ack_set = omega (arith, bytes 47);
    syn_kept = omega (arith, bytes 47);
  }
