-- ===== src/Crc/Reference.antt =====
-- `crcFast` with the table of `crcInit` against division of the message a bit at a time.
use osu_cse.Base.{ℕ, zero, suc, ◌+◌, ◌*◌, ◌/◌, ◌%◌, ◌^◌, ◌≤◌, ◌<◌, bit_xor, List, [], ◌∷◌, ◌++◌}
use native.Mathlib.Nat.{pow-suc, one-le-pow}
use osu_cse.Base.{◌≡◌, refl, sym, ap, ap₂, ◌∙◌, arith, get_or}
use osu_cse.Base.Bits.{bit_xor-zero, bit_xor_comm, bit_xor_assoc, bit_xor_fields, bit_xor-lt}
use osu_cse.Crc.{
  shift_bit, shift_bits, table_entry, init_from, crc_init, crc_from, crc_fast, u8, u16,
}
use osu_cse.Crc.Linear.{
  shift_bit_fields, shift_bit-lt, shift_bits-lt, shift_bit-bit_xor, shift_bits-bit_xor,
}

-- The specification: the register of a serial divider, fed the message's bits, highest first.
abbrev pub feed : ℕ → List ℕ → ℕ
feed r [] = r
feed r (bit ∷ bits) = feed (shift_bit (bit_xor r (bit * 2 ^ 15))) bits

abbrev pub byte_bits : ℕ → List ℕ
byte_bits b =
    b / 2 ^ 7 % 2
    ∷ b / 2 ^ 6 % 2
    ∷ b / 2 ^ 5 % 2
    ∷ b / 2 ^ 4 % 2
    ∷ b / 2 ^ 3 % 2
    ∷ b / 2 ^ 2 % 2
    ∷ b / 2 % 2
    ∷ b % 2
    ∷ []

abbrev pub message_bits : List ℕ → List ℕ
message_bits [] = []
message_bits (b ∷ message) = byte_bits b ++ message_bits message

abbrev pub IsBytes : List ℕ → Type 0
IsBytes [] = Unit
IsBytes (b ∷ message) = (b < 256) × IsBytes message

-- The top `n` bits of a word of sixteen, and what is left of it after them.
top_bits : ℕ → ℕ → List ℕ
top_bits zero x = []
top_bits (suc n) x = x / 2 ^ 15 ∷ top_bits n (x * 2 % 2 ^ 16)

advance : ℕ → ℕ → ℕ
advance zero x = x
advance (suc n) x = advance n (x * 2 % 2 ^ 16)

shift_low : (s : ℕ) → s < 2 ^ 15 → shift_bit s ≡ s * 2
shift_low s h = ap shift_bit below ∙ shift_bit_fields 0 s (omega arith) h ∙ bit_xor-zero (s * 2)
  where
    below : s ≡ 0 * 2 ^ 15 + s
    below = omega arith

-- The bits below the top one wait in the register or beside it alike.
shift_bit_apart :
    (r x : ℕ)
    → r < 2 ^ 16
    → x < 2 ^ 16
    → shift_bit (bit_xor r x)
      ≡ bit_xor (shift_bit (bit_xor r (x / 2 ^ 15 * 2 ^ 15))) (x * 2 % 2 ^ 16)
shift_bit_apart r x hr hx =
    ap (λ t. shift_bit (bit_xor r t)) apart
    ∙ ap shift_bit (sym (bit_xor_assoc r top low))
    ∙ shift_bit-bit_xor (bit_xor r top) low (bit_xor-lt 16 r top hr (omega arith)) (omega arith)
    ∙ ap (bit_xor (shift_bit (bit_xor r top))) (shift_low low (omega arith) ∙ doubled)
  where
    top : ℕ
    top = x / 2 ^ 15 * 2 ^ 15

    low : ℕ
    low = x % 2 ^ 15

    doubled : low * 2 ≡ x * 2 % 2 ^ 16
    doubled = omega arith

    apart : x ≡ bit_xor top low
    apart = omega (
      arith,
      bit_xor_fields 15 (x / 2 ^ 15) 0 0 (x % 2 ^ 15) (omega arith) (omega arith),
      bit_xor-zero (x / 2 ^ 15),
      bit_xor_comm 0 (x % 2 ^ 15),
      bit_xor-zero (x % 2 ^ 15),
      ap₂ bit_xor {x = x / 2 ^ 15 * 2 ^ 15 + 0} {y = top} {u = 0 * 2 ^ 15 + x % 2 ^ 15} {v = low}
          (omega arith) (omega arith),
    )

shift_bits-feed :
    (n r x : ℕ)
    → r < 2 ^ 16
    → x < 2 ^ 16
    → shift_bits n (bit_xor r x) ≡ bit_xor (feed r (top_bits n x)) (advance n x)
unfolding shift_bits top_bits advance
shift_bits-feed zero r x hr hx = refl
shift_bits-feed (suc n) r x hr hx =
    ap (shift_bits n) (shift_bit_apart r x hr hx)
    ∙ shift_bits-feed n (shift_bit (bit_xor r (x / 2 ^ 15 * 2 ^ 15))) (x * 2 % 2 ^ 16)
        (shift_bit-lt _) (omega arith)

top_bits_byte : (b : ℕ) → b < 256 → top_bits 8 (b * 2 ^ 8) ≡ byte_bits b
unfolding top_bits
top_bits_byte b h = ground arith

advance_byte : (b : ℕ) → b < 256 → advance 8 (b * 2 ^ 8) ≡ 0
unfolding advance
advance_byte b h = omega arith

feed_byte :
    (r b : ℕ) → r < 2 ^ 16 → b < 256 → shift_bits 8 (bit_xor r (b * 2 ^ 8)) ≡ feed r (byte_bits b)
feed_byte r b hr hb =
    shift_bits-feed 8 r (b * 2 ^ 8) hr (omega arith)
    ∙ ap₂ (λ bits rest. bit_xor (feed r bits) rest) (top_bits_byte b hb) (advance_byte b hb)
    ∙ bit_xor-zero (feed r (byte_bits b))

-- Steps only shift a register whose upper bits are zero.
pub shift_bits_small : (n l : ℕ) → l * 2 ^ n < 2 ^ 16 → shift_bits n l ≡ l * 2 ^ n
unfolding shift_bits
shift_bits_small zero l h = omega arith
shift_bits_small (suc n) l h =
    ap (shift_bits n) (shift_low l room)
    ∙ shift_bits_small n (l * 2) (rw regroup at h)
    ∙ sym regroup
  where
    regroup : l * 2 ^ suc n ≡ l * 2 * 2 ^ n
    regroup = grind (arith, pow-suc 2 n)

    scaled : l * 2 * 1 ≤ l * 2 * 2 ^ n
    scaled = grind (arith, one-le-pow n 2)

    room : l < 2 ^ 15
    room = omega (arith, regroup, scaled)

-- `crcTable[dividend]`
get_or-init_from : (left k i : ℕ) → k < left → get_or (init_from left i) k 0 ≡ table_entry (i + k)
unfolding init_from
get_or-init_from zero k i h = absurd (omega arith)
get_or-init_from (suc left) zero i h = ap table_entry (omega arith)
get_or-init_from (suc left) (suc k) i h =
    get_or-init_from left k (suc i) (omega arith) ∙ ap table_entry (omega arith)

table_lookup : (k : ℕ) → k < 256 → get_or crc_init k 0 ≡ shift_bits 8 (k * 2 ^ 8)
unfolding crc_init table_entry
table_lookup k h = get_or-init_from 256 k 0 h ∙ ap (λ t. shift_bits 8 t) word
  where
    word : u16 ((0 + k) * 2 ^ 8) ≡ k * 2 ^ 8
    word = omega arith

-- One byte by the table is eight steps of the divider.
pub table_step :
    (r b : ℕ)
    → r < 2 ^ 16
    → b < 256
    → u16 (bit_xor (get_or crc_init (u8 (bit_xor b (r / 2 ^ 8))) 0) (r * 2 ^ 8))
      ≡ shift_bits 8 (bit_xor r (b * 2 ^ 8))
table_step r b hr hb =
    ap (λ t. u16 (bit_xor t (r * 2 ^ 8)))
      (ap (λ k. get_or crc_init k 0) byte_index ∙ table_lookup index small)
    ∙ ap₂ (λ x y. u16 (bit_xor x y)) {x = entry} {y = 0 * 2 ^ 16 + entry} (omega arith) widened
    ∙ ap u16 (bit_xor_fields 16 0 entry hi (lo * 2 ^ 8) entry-lt (omega arith))
    ∙ u16_low
    ∙ ap (bit_xor entry) (sym (shift_bits_small 8 lo (omega arith)))
    ∙ sym (shift_bits-bit_xor 8 (index * 2 ^ 8) lo (omega (arith, small)) (omega arith))
    ∙ ap (shift_bits 8) (sym merged)
  where
    hi : ℕ
    hi = r / 2 ^ 8

    lo : ℕ
    lo = r % 2 ^ 8

    index : ℕ
    index = bit_xor b hi

    small : index < 256
    small = bit_xor-lt 8 b hi hb (omega arith)

    byte_index : u8 index ≡ index
    byte_index = omega (arith, small)

    entry : ℕ
    entry = shift_bits 8 (index * 2 ^ 8)

    entry-lt : entry < 2 ^ 16
    entry-lt = shift_bits-lt 8 (index * 2 ^ 8) (omega (arith, small))

    widened : r * 2 ^ 8 ≡ hi * 2 ^ 16 + lo * 2 ^ 8
    widened = omega arith

    u16_low : u16 (bit_xor 0 hi * 2 ^ 16 + bit_xor entry (lo * 2 ^ 8)) ≡ bit_xor entry (lo * 2 ^ 8)
    u16_low = omega (arith, bit_xor-lt 16 entry (lo * 2 ^ 8) entry-lt (omega arith))

    apart : bit_xor (index * 2 ^ 8) lo ≡ index * 2 ^ 8 + lo
    apart =
        ap₂ bit_xor {x = index * 2 ^ 8} {y = index * 2 ^ 8 + 0} {u = lo} {v = 0 * 2 ^ 8 + lo}
          (omega arith) (omega arith)
        ∙ bit_xor_fields 8 index 0 0 lo (omega arith) (omega arith)
        ∙ omega (arith, bit_xor-zero index, bit_xor_comm 0 lo, bit_xor-zero lo)

    merged : bit_xor r (b * 2 ^ 8) ≡ bit_xor (index * 2 ^ 8) lo
    merged =
        ap₂ bit_xor {x = r} {y = hi * 2 ^ 8 + lo} {u = b * 2 ^ 8} {v = b * 2 ^ 8 + 0} (omega arith)
          (omega arith)
        ∙ bit_xor_fields 8 hi lo b 0 (omega arith) (omega arith)
        ∙ omega (arith, bit_xor_comm hi b, bit_xor-zero lo, apart)

pub feed-lt : (bits : List ℕ) (r : ℕ) → r < 2 ^ 16 → feed r bits < 2 ^ 16
feed-lt [] r h = h
feed-lt (bit ∷ bits) r h = feed-lt bits (shift_bit (bit_xor r (bit * 2 ^ 15))) (shift_bit-lt _)

feed-append : (xs ys : List ℕ) (r : ℕ) → feed r (xs ++ ys) ≡ feed (feed r xs) ys
feed-append [] ys r = refl
feed-append (x ∷ xs) ys r = feed-append xs ys (shift_bit (bit_xor r (x * 2 ^ 15)))

-- The loop of `crcFast` from any register.
pub crc_from-eq-feed :
    (message : List ℕ) (r : ℕ)
    → r < 2 ^ 16
    → IsBytes message
    → crc_from crc_init r message ≡ feed r (message_bits message)
unfolding crc_from
crc_from-eq-feed [] r hr h = refl
crc_from-eq-feed (b ∷ message) r hr h =
    ap (λ t. crc_from crc_init t message) (table_step r b hr h.0 ∙ feed_byte r b hr h.0)
    ∙ crc_from-eq-feed message (feed r (byte_bits b)) (feed-lt (byte_bits b) r hr) h.1
    ∙ sym (feed-append (byte_bits b) (message_bits message) r)

-- With the table that `crcInit` fills, `crcFast` computes, for every message of bytes, the
-- remainder that a serial divider by the polynomial has after the message's bits.
pub crc_fast-eq-feed :
    (message : List ℕ) → IsBytes message → crc_fast crc_init message ≡ feed 0 (message_bits message)
unfolding crc_fast
crc_fast-eq-feed message h = crc_from-eq-feed message 0 (omega arith) h
