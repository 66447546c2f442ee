-- ===== src/Crc.antt =====
-- The checksum of tcpd.c: `crcInit` fills a table of 256 remainders, `crcFast` divides a message
-- by the polynomial a byte at a time with it. A `crc` is a uint16_t, a byte a number below 256.
pub mod Linear
pub mod Reference
pub mod Detection
mod Tests
use osu_cse.Base.{ℕ, zero, suc, ◌+◌, ◌*◌, ◌/◌, ◌%◌, ◌^◌, bit_and, bit_xor, List, [], ◌∷◌}
use osu_cse.Base.{◌==◌, if◌then◌else◌, get_or}

abbrev pub width : ℕ
width = 16

abbrev pub top_bit : ℕ
top_bit = 2 ^ 15

abbrev pub polynomial : ℕ
polynomial = 0x8005

-- The casts to `crc` and to `uint8_t`.
abbrev pub u16 : ℕ → ℕ
u16 n = n % 2 ^ 16

abbrev pub u8 : ℕ → ℕ
u8 n = n % 2 ^ 8

-- One round of the loop over `bit`.
pub shift_bit : ℕ → ℕ
shift_bit r = if bit_and r top_bit == 0 then u16 (r * 2) else u16 (bit_xor (r * 2) polynomial)

-- `for (bit = n; bit > 0; --bit)`
pub shift_bits : ℕ → ℕ → ℕ
unfolding shift_bit
shift_bits zero r = r
shift_bits (suc n) r = shift_bits n (shift_bit r)

pub table_entry : ℕ → ℕ
unfolding shift_bits
table_entry dividend = shift_bits 8 (u16 (dividend * 2 ^ 8))

-- The loop over `dividend`, with `left` rounds to go.
pub init_from : ℕ → ℕ → List ℕ
unfolding table_entry
init_from zero dividend = []
init_from (suc left) dividend = table_entry dividend ∷ init_from left (suc dividend)

-- `crcTable` after `crcInit`.
pub crc_init : List ℕ
unfolding init_from
crc_init = init_from 256 0

-- The loop of `crcFast` over the bytes that are left.
pub crc_from : List ℕ → ℕ → List ℕ → ℕ
crc_from table remainder [] = remainder
crc_from table remainder (byte ∷ message) =
    crc_from table
      (u16 (bit_xor (get_or table (u8 (bit_xor byte (remainder / 2 ^ 8))) 0) (remainder * 2 ^ 8)))
      message

pub crc_fast : List ℕ → List ℕ → ℕ
unfolding crc_from
crc_fast table message = crc_from table 0 message
