-- ===== src/Crc/Tests.antt =====
-- Runs of the checksum, and its theorems at a message.
use osu_cse.Base.{ℕ, List, [], ◌∷◌, ◌++◌, ◌≡◌, ◌≢◌, refl, arith}
use osu_cse.Crc.{crc_init, crc_fast}
use osu_cse.Crc.Reference.{feed, message_bits, crc_fast-eq-feed}
use osu_cse.Crc.Detection.{burst_detected}

abbrev message : List ℕ
message = 0x31 ∷ 0x32 ∷ 0x33 ∷ []

-- The value of CRC-16 with this polynomial and no reflection (CRC-16/BUYPASS).
crc_of_digits :
    crc_fast crc_init (0x31 ∷ 0x32 ∷ 0x33 ∷ 0x34 ∷ 0x35 ∷ 0x36 ∷ 0x37 ∷ 0x38 ∷ 0x39 ∷ []) ≡ 0xfee8
unfolding crc_fast crc_init
crc_of_digits = refl

crc_fast-eq-feed_example : crc_fast crc_init message ≡ feed 0 (message_bits message)
crc_fast-eq-feed_example = crc_fast-eq-feed message (omega arith)

burst_detected_example :
    crc_fast crc_init (message ++ (7 ∷ 9 ∷ 1 ∷ []))
    ≢ crc_fast crc_init (message ++ (8 ∷ 9 ∷ 1 ∷ []))
burst_detected_example =
    burst_detected message (1 ∷ []) 7 9 8 9 (omega arith) (omega arith) (omega arith) (omega arith)
      (omega arith) (λ same. absurd (omega (arith, same)))
