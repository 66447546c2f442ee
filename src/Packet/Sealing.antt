-- ===== src/Packet/Sealing.antt =====
-- What the server reads of a packet that the driver sealed.
use osu_cse.Base.{ℕ, ◌^◌, ◌<◌, ◌≡◌, refl, sym, ap, ap₂, ◌∙◌, arith}
use osu_cse.Base.{
  List, ◌∷◌, ◌++◌, length, take, drop, length-append, drop-append_length, some, true, ◌==◌,
}
use mathlib.Core.List.{append_assoc}
use osu_cse.Base.{none, ◌≢◌, false}
use osu_cse.Base.Int.{pos}
use osu_cse.Bytes.{int_bytes, from_bytes}
use osu_cse.Bytes.Laws.{from_bytes-int_bytes, take-append_length}
use osu_cse.Crc.{crc_init, crc_fast}
use osu_cse.Crc.Reference.{IsBytes, message_bits, feed-lt, crc_fast-eq-feed}
use osu_cse.Receiver.{Window, accept}
use osu_cse.Packet.{Packet, crc_bytes, before_check, behind_check, packet_bytes, seal, two_bytes}
use osu_cse.Packet.{check_of, blank_check, seq_of, body_of, unseal, signed, accept_if, serve}

-- The sizes of the fields, and bytes in all of them.
pub record IsPacket (p : Packet) : Type 0 where
  pub ports : length p.ports ≡ 4
  pub seq : p.seq < 2 ^ 31
  pub flags : length p.flags ≡ 8
  pub urgent : length p.urgent ≡ 2
  pub padding : length p.padding ≡ 4
  pub time_stamp : length p.time_stamp ≡ 16
  pub bytes : IsBytes (packet_bytes p 0)

pub crc_fast-lt : (message : List ℕ) → IsBytes message → crc_fast crc_init message < 2 ^ 16
crc_fast-lt message h =
    omega (arith, crc_fast-eq-feed message h, feed-lt (message_bits message) 0 (omega arith))

module _ (p : Packet) (v : IsPacket p) where
  length-before_check : length (before_check p) ≡ 16
  unfolding int_bytes
  length-before_check = omega (
    arith,
    v.ports,
    v.flags,
    length-append p.ports (int_bytes p.seq ++ p.flags),
    length-append (int_bytes p.seq) p.flags,
  )

  pub check_read : (check : ℕ) → check < 2 ^ 16 → check_of (packet_bytes p check) ≡ check
  check_read check h =
      ap (λ l. two_bytes (take 2 l))
        (drop-append_length 16 0 (before_check p) (crc_bytes check ++ behind_check p)
          length-before_check)
      ∙ omega arith

  pub check_blanked : (check : ℕ) → blank_check (packet_bytes p check) ≡ packet_bytes p 0
  check_blanked check =
      ap₂ (λ before behind. before ++ (0 ∷ 0 ∷ behind))
        (take-append_length 16 (before_check p) _ length-before_check)
        (ap (drop 2) (
          drop-append_length 16 0 (before_check p) (crc_bytes check ++ behind_check p)
            length-before_check))

  seq_read : (check : ℕ) → seq_of (packet_bytes p check) ≡ p.seq
  unfolding int_bytes
  seq_read check =
      ap (λ l. from_bytes (take 4 (drop 4 l)))
        (append_assoc p.ports (int_bytes p.seq ++ p.flags) (crc_bytes check ++ behind_check p))
      ∙ ap (λ l. from_bytes (take 4 l))
          (drop-append_length 4 0 p.ports
              ((int_bytes p.seq ++ p.flags) ++ (crc_bytes check ++ behind_check p)) v.ports
            ∙ append_assoc (int_bytes p.seq) p.flags (crc_bytes check ++ behind_check p))
      ∙ ap from_bytes (
          take-append_length 4 (int_bytes p.seq) (p.flags ++ (crc_bytes check ++ behind_check p))
            refl)
      ∙ from_bytes-int_bytes p.seq (omega (arith, v.seq))

  pub stamp_read : (check : ℕ) → take 16 (drop 24 (packet_bytes p check)) ≡ p.time_stamp
  stamp_read check =
      ap (take 16) (
        drop-append_length 16 8 (before_check p) _ length-before_check
        ∙ drop-append_length 2 4 p.urgent _ v.urgent
        ∙ drop-append_length 4 0 p.padding _ v.padding)
      ∙ take-append_length 16 p.time_stamp p.body v.time_stamp

  body_read : (check : ℕ) → body_of (packet_bytes p check) ≡ p.body
  body_read check =
      drop-append_length 16 24 (before_check p) _ length-before_check
      ∙ drop-append_length 2 20 p.urgent _ v.urgent
      ∙ drop-append_length 4 16 p.padding _ v.padding
      ∙ drop-append_length 16 0 p.time_stamp p.body v.time_stamp

same_test : (a b : ℕ) → a ≡ b → (a == b) ≡ true
same_test a b h = ground arith

other_test : (a b : ℕ) → a ≢ b → (a == b) ≡ false
other_test a b h = ground arith

pub unseal_right :
    (table message : List ℕ)
    → crc_fast table (blank_check message) ≡ check_of message
    → unseal table message ≡ some (seq_of message, body_of message)
unfolding unseal
unseal_right table message h = rw (same_test _ _ h)

pub unseal_wrong :
    (table message : List ℕ)
    → crc_fast table (blank_check message) ≢ check_of message
    → unseal table message ≡ none
unfolding unseal
unseal_wrong table message h = rw (other_test _ _ h)

pub seal-passes :
    (p : Packet)
    → IsPacket p
    → crc_fast crc_init (blank_check (seal crc_init p)) ≡ check_of (seal crc_init p)
unfolding seal
seal-passes p v =
    ap (crc_fast crc_init) (check_blanked p v check)
    ∙ sym (check_read p v check (crc_fast-lt (packet_bytes p 0) v.bytes))
  where
    check : ℕ
    check = crc_fast crc_init (packet_bytes p 0)

-- A sealed packet passes the server's test, which then has its sequence number and body.
pub unseal-seal :
    (p : Packet) → IsPacket p → unseal crc_init (seal crc_init p) ≡ some (p.seq, p.body)
unfolding seal
unseal-seal p v =
    unseal_right crc_init (seal crc_init p) (seal-passes p v)
    ∙ ap₂ (λ s b. some (s, b)) (seq_read p v _) (body_read p v _)

signed_small : (n : ℕ) → n < 2 ^ 31 → signed n ≡ pos n
signed_small n h = ground arith

-- The server does with a sealed packet what the receive window does with its number and body.
pub serve-seal :
    (w : Window) (p : Packet)
    → IsPacket p
    → serve crc_init w (seal crc_init p) ≡ accept w (pos p.seq) p.body (length p.body)
unfolding serve
serve-seal w p v =
    ap (accept_if w) (unseal-seal p v)
    ∙ ap (λ s. accept w s p.body (length p.body)) (signed_small p.seq v.seq)
