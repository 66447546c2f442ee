-- ===== src/Ack/Tests.antt =====
-- An acknowledgement, and the theorems at it.
use osu_cse.Base.{ℕ, List, [], ◌∷◌, ◌≡◌, refl, replicate, some, arith}
use osu_cse.Crc.{crc_init}
use osu_cse.Bytes.{int_bytes}
use osu_cse.Packet.{Packet, seal}
use osu_cse.Packet.Sealing.{IsPacket}
use osu_cse.Ack.{Ack, answer, open_ack}
use osu_cse.Ack.Answers.{IsAck, answer-seal-open_ack}

abbrev stamp : List ℕ
stamp = 3 ∷ replicate 15 0

abbrev packet : Packet
packet = record {
  ports = replicate 4 0;
  seq = 5;
  flags = replicate 8 0;
  urgent = replicate 2 0;
  padding = replicate 4 0;
  time_stamp = stamp;
  body = 10 ∷ [];
}

packet-IsPacket : IsPacket packet
unfolding int_bytes
packet-IsPacket = record {
  ports = refl;
  seq = omega arith;
  flags = refl;
  urgent = refl;
  padding = refl;
  time_stamp = refl;
  bytes = omega arith;
}

-- `ack` before the first answer, as the stack left it but for its checksum.
abbrev first_ack : Ack
first_ack = record {
  ports = 9 ∷ replicate 3 1;
  seq = 7;
  ack_seq = 11;
  flags = 3 ∷ replicate 3 0;
  check = 0;
  urgent = replicate 2 0;
  padding = replicate 4 0;
  time_stamp = stamp;
}

first_ack-IsAck : IsAck first_ack
first_ack-IsAck = record {
  ports = refl;
  ports_bytes = omega arith;
  seq = omega arith;
  ack_seq = omega arith;
  flags = refl;
  flags_bytes = omega arith;
  urgent = refl;
  urgent_bytes = omega arith;
  padding = refl;
  padding_bytes = omega arith;
  time_stamp = refl;
  time_stamp_bytes = omega arith;
}

answer-seal-open_ack_example :
    (bytes : List ℕ) × (answer crc_init first_ack (seal crc_init packet) ≡ some bytes)
    × (open_ack crc_init bytes ≡ some (5, stamp))
answer-seal-open_ack_example =
    answer-seal-open_ack packet first_ack packet-IsPacket (omega arith) first_ack-IsAck refl
