-- ===== src/Ack/Answers.antt =====
-- What the driver reads of the acknowledgement of a packet that it sealed.
use osu_cse.Base.{ℕ, ◌/◌, ◌%◌, ◌^◌, ◌<◌, ◌≡◌, ◌≢◌, sym, ap, ap₂, ◌∙◌, arith}
use osu_cse.Base.{true, false, ◌==◌, List, [], ◌∷◌, ◌++◌, length, none, some}
use osu_cse.Bytes.{int_bytes, from_bytes}
use osu_cse.Base.{take, drop, drop-append_length}
use mathlib.Core.List.{append_assoc}
use osu_cse.Bytes.Laws.{from_bytes-int_bytes}
use osu_cse.Crc.{crc_init, crc_fast}
use osu_cse.Crc.Reference.{IsBytes}
use osu_cse.Crc.Detection.{burst_detected}
use osu_cse.Packet.{
  Packet, packet_bytes, before_check, behind_check, crc_bytes, seal, check_of, blank_check,
}
use osu_cse.Packet.Sealing.{
  IsPacket, unseal-seal, check_read, check_blanked, stamp_read, crc_fast-lt,
}
use osu_cse.Ack.{Ack, ack_packet, seal_ack, time_stamp_of, answer, answer_to, ack_of, open_ack}

-- The sizes of the fields, and bytes in all of them.
pub record IsAck (a : Ack) : Type 0 where
  pub ports : length a.ports ≡ 4
  pub ports_bytes : IsBytes a.ports
  pub seq : a.seq < 2 ^ 31
  pub ack_seq : a.ack_seq < 2 ^ 32
  pub flags : length a.flags ≡ 4
  pub flags_bytes : IsBytes a.flags
  pub urgent : length a.urgent ≡ 2
  pub urgent_bytes : IsBytes a.urgent
  pub padding : length a.padding ≡ 4
  pub padding_bytes : IsBytes a.padding
  pub time_stamp : length a.time_stamp ≡ 16
  pub time_stamp_bytes : IsBytes a.time_stamp

IsBytes-append : (xs ys : List ℕ) → IsBytes xs → IsBytes ys → IsBytes (xs ++ ys)
IsBytes-append [] ys hx hy = hy
IsBytes-append (x ∷ xs) ys hx hy = (hx.0, IsBytes-append xs ys hx.1 hy)

int_bytes-IsBytes : (n : ℕ) → IsBytes (int_bytes n)
unfolding int_bytes
int_bytes-IsBytes n = omega arith

behind-IsBytes : (a : Ack) → IsAck a → IsBytes (behind_check (ack_packet a))
behind-IsBytes a v = IsBytes-append a.urgent (a.padding ++ (a.time_stamp ++ [])) v.urgent_bytes (
    IsBytes-append a.padding (a.time_stamp ++ []) v.padding_bytes
      (IsBytes-append a.time_stamp [] v.time_stamp_bytes tt))

before-IsBytes : (a : Ack) → IsAck a → IsBytes (before_check (ack_packet a))
before-IsBytes a v =
    IsBytes-append a.ports (int_bytes a.seq ++ (int_bytes a.ack_seq ++ a.flags)) v.ports_bytes (
      IsBytes-append (int_bytes a.seq) (int_bytes a.ack_seq ++ a.flags) (int_bytes-IsBytes a.seq)
        (IsBytes-append (int_bytes a.ack_seq) a.flags (int_bytes-IsBytes a.ack_seq) v.flags_bytes))

packet_bytes-IsBytes : (a : Ack) (check : ℕ) → IsAck a → IsBytes (packet_bytes (ack_packet a) check)
packet_bytes-IsBytes a check v =
    IsBytes-append (before_check (ack_packet a)) (crc_bytes check ++ behind_check (ack_packet a))
      (before-IsBytes a v) (omega arith, (omega arith, behind-IsBytes a v))

ack_packet-IsPacket : (a : Ack) → IsAck a → IsPacket (ack_packet a)
unfolding int_bytes
ack_packet-IsPacket a v = record {
  ports = v.ports;
  seq = v.seq;
  flags = omega (arith, v.flags);
  urgent = v.urgent;
  padding = v.padding;
  time_stamp = v.time_stamp;
  bytes = packet_bytes-IsBytes a 0 v;
}

ack_read : (a : Ack) (check : ℕ) → IsAck a → ack_of (packet_bytes (ack_packet a) check) ≡ a.ack_seq
unfolding int_bytes
ack_read a check v =
    ap (λ l. from_bytes (take 4 (drop 8 l)))
      (append_assoc a.ports (int_bytes a.seq ++ (int_bytes a.ack_seq ++ a.flags))
        (crc_bytes check ++ behind_check (ack_packet a)))
    ∙ ap (λ l. from_bytes (take 4 l)) (drop-append_length 4 4 a.ports _ v.ports)
    ∙ from_bytes-int_bytes a.ack_seq v.ack_seq

open_right :
    (table message : List ℕ)
    → crc_fast table (blank_check message) ≡ check_of message
    → open_ack table message ≡ some (ack_of message, time_stamp_of message)
unfolding open_ack
open_right table message h = rw (same _ _ h)
  where
    same : (a b : ℕ) → a ≡ b → (a == b) ≡ true
    same a b h = ground arith

open_wrong :
    (table message : List ℕ)
    → crc_fast table (blank_check message) ≢ check_of message
    → open_ack table message ≡ none
unfolding open_ack
open_wrong table message h = rw (other _ _ h)
  where
    other : (a b : ℕ) → a ≢ b → (a == b) ≡ false
    other a b h = ground arith

-- An acknowledgement whose checksum field held zero is read as it was meant.
pub open_ack-seal_ack :
    (a : Ack)
    → IsAck a
    → a.check ≡ 0
    → open_ack crc_init (seal_ack crc_init a) ≡ some (a.ack_seq, a.time_stamp)
unfolding seal_ack
open_ack-seal_ack a v zero_check =
    open_right crc_init (packet_bytes p check) (
      ap (crc_fast crc_init) (check_blanked p w check)
      ∙ ap (λ k. crc_fast crc_init (packet_bytes p k)) (sym zero_check)
      ∙ sym (
          check_read p w check
            (crc_fast-lt (packet_bytes p a.check) (packet_bytes-IsBytes a a.check v))))
    ∙ ap₂ (λ n t. some (n, t)) (ack_read a check v) (stamp_read p w check)
  where
    p : Packet
    p = ack_packet a

    w : IsPacket (ack_packet a)
    w = ack_packet-IsPacket a v

    check : ℕ
    check = crc_fast crc_init (packet_bytes (ack_packet a) a.check)

-- An acknowledgement whose checksum field was not zero when it was sealed, as the first may, is taken
-- for garbled by the driver.
pub stale_check_refused :
    (a : Ack)
    → IsAck a
    → 0 < a.check
    → a.check < 2 ^ 16
    → open_ack crc_init (seal_ack crc_init a) ≡ none
unfolding seal_ack
stale_check_refused a v stale small = open_wrong crc_init (packet_bytes p check) fails
  where
    p : Packet
    p = ack_packet a

    w : IsPacket (ack_packet a)
    w = ack_packet-IsPacket a v

    check : ℕ
    check = crc_fast crc_init (packet_bytes (ack_packet a) a.check)

    fails :
        crc_fast crc_init (blank_check (packet_bytes (ack_packet a) check))
        ≢ check_of (packet_bytes (ack_packet a) check)
    fails same =
        burst_detected (before_check p) (behind_check p) 0 0 (a.check % 2 ^ 8)
          (a.check / 2 ^ 8 % 2 ^ 8) (omega arith) (omega arith) (omega arith) (omega arith)
          (behind-IsBytes a v) (λ e. absurd (omega (arith, e)))
          (ap (crc_fast crc_init) (sym (check_blanked p w check))
            ∙ same
            ∙ check_read p w check
                (crc_fast-lt (packet_bytes p a.check) (packet_bytes-IsBytes a a.check v)))

abbrev answer_of : Packet → Ack → Ack
answer_of p ack = record ack { ack_seq = p.seq; time_stamp = p.time_stamp }

answer-seal :
    (p : Packet) (ack : Ack)
    → IsPacket p
    → answer crc_init ack (seal crc_init p) ≡ some (seal_ack crc_init (answer_of p ack))
unfolding answer seal
answer-seal p ack v =
    ap (answer_to crc_init ack (seal crc_init p)) (unseal-seal p v)
    ∙ ap (λ t. some (seal_ack crc_init (record (answer_of p ack) { time_stamp = t })))
        (stamp_read p v (crc_fast crc_init (packet_bytes p 0)))

-- The server answers a sealed packet, whether its window takes it or not, and if the checksum field
-- of `ack` held zero, and its sequence number was below 2 ^ 31, whatever its other fields held, the
-- driver reads the packet's number and the time at which it was sent.
pub answer-seal-open_ack :
    (p : Packet) (ack : Ack)
    → IsPacket p
    → IsBytes p.time_stamp
    → IsAck ack
    → ack.check ≡ 0
    → (bytes : List ℕ) × (answer crc_init ack (seal crc_init p) ≡ some bytes)
      × (open_ack crc_init bytes ≡ some (p.seq, p.time_stamp))
answer-seal-open_ack p ack v stamp w zero_check = (
  seal_ack crc_init (answer_of p ack),
  answer-seal p ack v,
  open_ack-seal_ack (answer_of p ack)
      (record {
        ports = w.ports;
        ports_bytes = w.ports_bytes;
        seq = w.seq;
        ack_seq = omega (arith, v.seq);
        flags = w.flags;
        flags_bytes = w.flags_bytes;
        urgent = w.urgent;
        urgent_bytes = w.urgent_bytes;
        padding = w.padding;
        padding_bytes = w.padding_bytes;
        time_stamp = v.time_stamp;
        time_stamp_bytes = stamp;
      })
      zero_check,
)
