-- ===== src/Ack.antt =====
-- The acknowledgements of tcpd.c: what `server` answers to a packet, and what `client` reads of it.
-- They have the layout of a packet, with no body, and the number where a packet has part of its flags.
pub mod Answers
mod Tests
use osu_cse.Base.{ℕ, ◌==◌, if◌then◌else◌, List, [], ◌++◌, take, drop, replicate, Option, none, some}
use osu_cse.Bytes.{int_bytes, from_bytes}
use osu_cse.Crc.{crc_fast}
use osu_cse.Buffer.{Block}
use osu_cse.Packet.{Packet, packet_bytes, check_of, blank_check, unseal}

-- `ack` but for its address. Only the number, the time and the checksum are ever set; the other
-- fields hold what the stack held at first, and zeros after the first packet.
pub record Ack : Type 0 where
  pub ports : List ℕ
  pub seq : ℕ
  pub ack_seq : ℕ
  pub flags : List ℕ
  pub check : ℕ
  pub urgent : List ℕ
  pub padding : List ℕ
  pub time_stamp : List ℕ

abbrev pub ack_packet : Ack → Packet
ack_packet a = record {
  ports = a.ports;
  seq = a.seq;
  flags = int_bytes a.ack_seq ++ a.flags;
  urgent = a.urgent;
  padding = a.padding;
  time_stamp = a.time_stamp;
  body = [];
}

-- The checksum is computed over `check` as it is, and then written there.
pub seal_ack : List ℕ → Ack → List ℕ
seal_ack table a =
    packet_bytes (ack_packet a) (crc_fast table (packet_bytes (ack_packet a) a.check))

abbrev pub time_stamp_of : List ℕ → List ℕ
time_stamp_of message = take 16 (drop 24 message)

abbrev pub answer_to : List ℕ → Ack → List ℕ → Option (ℕ × Block) → Option (List ℕ)
answer_to table ack message none = none
answer_to table ack message (some (seq, body)) =
    some (seal_ack table (record ack { ack_seq = seq; time_stamp = time_stamp_of message }))

-- What `server` sends back for a message: nothing if it was garbled.
pub answer : List ℕ → Ack → List ℕ → Option (List ℕ)
answer table ack message = answer_to table ack message (unseal table message)

abbrev pub ack_of : List ℕ → ℕ
ack_of message = from_bytes (take 4 (drop 8 message))

-- The number and the time of an acknowledgement, unless it was garbled.
pub open_ack : List ℕ → List ℕ → Option (ℕ × List ℕ)
open_ack table message =
    if crc_fast table (blank_check message) == check_of message
    then some (ack_of message, time_stamp_of message)
    else none
