-- ===== src/Packet.antt =====
-- The packets of tcpd.c as bytes, from the TCP header on: how the driver seals one with a checksum
-- and what `server` reads of one. The compiler puts four bytes between the header and the time.
pub mod Sealing
pub mod Garbling
pub mod Traffic
mod Tests
use osu_cse.Base.{ℕ, ◌+◌, ◌-◌, ◌*◌, ◌/◌, ◌%◌, ◌^◌, ◌==◌, ltb, if◌then◌else◌}
use osu_cse.Base.{List, [], ◌∷◌, ◌++◌, length, take, drop, Option, none, some}
use osu_cse.Base.Int.{ℤ, pos, negsuc}
use osu_cse.Bytes.{int_bytes, from_bytes}
use osu_cse.Crc.{crc_fast}
use osu_cse.Buffer.{Block}
use osu_cse.Receiver.{Window, Outcome, done, accept}

-- `struct Packet` without the address and the checksum: what stands before `seq`, between it and
-- `check`, and behind that.
pub record Packet : Type 0 where
  pub ports : List ℕ
  pub seq : ℕ
  pub flags : List ℕ
  pub urgent : List ℕ
  pub padding : List ℕ
  pub time_stamp : List ℕ
  pub body : Block

abbrev pub crc_bytes : ℕ → List ℕ
crc_bytes check = check % 2 ^ 8 ∷ check / 2 ^ 8 % 2 ^ 8 ∷ []

abbrev pub before_check : Packet → List ℕ
before_check p = p.ports ++ (int_bytes p.seq ++ p.flags)

abbrev pub behind_check : Packet → List ℕ
behind_check p = p.urgent ++ (p.padding ++ (p.time_stamp ++ p.body))

-- The bytes with `check` as the checksum.
abbrev pub packet_bytes : Packet → ℕ → List ℕ
packet_bytes p check = before_check p ++ (crc_bytes check ++ behind_check p)

-- The checksum is computed while its own bytes are zero.
unfoldable pub seal : List ℕ → Packet → List ℕ
seal table p = packet_bytes p (crc_fast table (packet_bytes p 0))

abbrev pub seq_of : List ℕ → ℕ
seq_of message = from_bytes (take 4 (drop 4 message))

abbrev pub two_bytes : List ℕ → ℕ
two_bytes [] = 0
two_bytes (low ∷ []) = low
two_bytes (low ∷ high ∷ bytes) = low + high * 2 ^ 8

-- `original`
abbrev pub check_of : List ℕ → ℕ
check_of message = two_bytes (take 2 (drop 16 message))

-- `bzero` of the checksum.
abbrev pub blank_check : List ℕ → List ℕ
blank_check message = take 16 message ++ (0 ∷ 0 ∷ drop 2 (drop 16 message))

abbrev pub body_of : List ℕ → Block
body_of message = drop 40 message

-- The sequence number and the body, unless the packet was garbled.
pub unseal : List ℕ → List ℕ → Option (ℕ × Block)
unseal table message =
    if crc_fast table (blank_check message) == check_of message
    then some (seq_of message, body_of message)
    else none

-- An `int` from its 32 bits.
abbrev pub signed : ℕ → ℤ
signed n = if ltb n (2 ^ 31) then pos n else negsuc (2 ^ 32 - 1 - n)

abbrev pub accept_if : Window → Option (ℕ × Block) → Outcome
accept_if w none = done w []
accept_if w (some (seq, body)) = accept w (signed seq) body (length body)

-- One round of `server`, but for the acknowledgement.
pub serve : List ℕ → Window → List ℕ → Outcome
serve table w message = accept_if w (unseal table message)
