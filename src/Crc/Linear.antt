-- ===== src/Crc/Linear.antt =====
-- The division step is linear over exclusive or, and loses nothing.
use osu_cse.Base.{ℕ, zero, suc, ◌+◌, ◌*◌, ◌/◌, ◌%◌, ◌^◌, ◌<◌, bit_xor}
use osu_cse.Base.{◌≡◌, refl, sym, ap, ap₂, ◌∙◌, arith}
use osu_cse.Base.Bits.{bit_xor_step, bit_xor_comm, bit_xor_assoc, bit_xor-zero}
use osu_cse.Base.Bits.{bit_xor_fields, bit_xor-lt, bit_and_digit}
use osu_cse.Crc.{shift_bit, shift_bits, polynomial}

-- The step on the top bit `q` and the fifteen bits `s` below it.
pub shift_bit_fields :
    (q s : ℕ) → q < 2 → s < 2 ^ 15 → shift_bit (q * 2 ^ 15 + s) ≡ bit_xor (s * 2) (q * polynomial)
unfolding shift_bit
shift_bit_fields zero s hq hs = ground (arith, bit_and_digit 15 0 s hs, bit_xor-zero (s * 2))
shift_bit_fields (suc zero) s hq hs = ground (
  arith,
  bit_and_digit 15 1 s hs,
  bit_xor_fields 16 1 (s * 2) 0 polynomial (omega arith) (omega arith),
  bit_xor-zero 1,
  bit_xor-lt 16 (s * 2) polynomial (omega arith) (omega arith),
  ap (λ t. bit_xor t polynomial) (double s),
)
  where
    double : (s : ℕ) → (1 * 2 ^ 15 + s) * 2 ≡ 1 * 2 ^ 16 + s * 2
    double s = omega arith
shift_bit_fields (suc (suc q)) s hq hs = absurd (omega arith)

pub shift_bit-lt : (r : ℕ) → shift_bit r < 2 ^ 16
unfolding shift_bit
shift_bit-lt r = ground arith

pub shift_bits-lt : (n r : ℕ) → r < 2 ^ 16 → shift_bits n r < 2 ^ 16
unfolding shift_bits
shift_bits-lt zero r h = h
shift_bits-lt (suc n) r h = shift_bits-lt n (shift_bit r) (shift_bit-lt r)

-- (a ^ b) ^ (c ^ d) regrouped.
pub bit_xor_middle :
    (a b c d : ℕ) → bit_xor (bit_xor a b) (bit_xor c d) ≡ bit_xor (bit_xor a c) (bit_xor b d)
bit_xor_middle a b c d =
    bit_xor_assoc a b (bit_xor c d)
    ∙ ap (bit_xor a)
        (sym (bit_xor_assoc b c d) ∙ ap (λ t. bit_xor t d) (bit_xor_comm b c) ∙ bit_xor_assoc c b d)
    ∙ sym (bit_xor_assoc a c (bit_xor b d))

scale_bit :
    (p q : ℕ) → p < 2 → q < 2 → bit_xor p q * polynomial ≡ bit_xor (p * polynomial) (q * polynomial)
scale_bit zero zero hp hq = refl
scale_bit zero (suc zero) hp hq = refl
scale_bit (suc zero) zero hp hq = refl
scale_bit (suc zero) (suc zero) hp hq = refl
scale_bit zero (suc (suc q)) hp hq = absurd (omega arith)
scale_bit (suc zero) (suc (suc q)) hp hq = absurd (omega arith)
scale_bit (suc (suc p)) q hp hq = absurd (omega arith)

shift_bit_fields_linear :
    (p r q s : ℕ)
    → p < 2
    → r < 2 ^ 15
    → q < 2
    → s < 2 ^ 15
    → shift_bit (bit_xor (p * 2 ^ 15 + r) (q * 2 ^ 15 + s))
      ≡ bit_xor (shift_bit (p * 2 ^ 15 + r)) (shift_bit (q * 2 ^ 15 + s))
shift_bit_fields_linear p r q s hp hr hq hs =
    ap shift_bit (bit_xor_fields 15 p r q s hr hs)
    ∙ shift_bit_fields (bit_xor p q) (bit_xor r s) (bit_xor-lt 1 p q hp hq)
        (bit_xor-lt 15 r s hr hs)
    ∙ ap₂ bit_xor (doubled r s) (scale_bit p q hp hq)
    ∙ bit_xor_middle (r * 2) (s * 2) (p * polynomial) (q * polynomial)
    ∙ ap₂ bit_xor (sym (shift_bit_fields p r hp hr)) (sym (shift_bit_fields q s hq hs))
  where
    doubled : (a b : ℕ) → bit_xor a b * 2 ≡ bit_xor (a * 2) (b * 2)
    doubled a b = omega (
      arith,
      bit_xor_step (a * 2) (b * 2),
      ap₂ bit_xor {x = a * 2 / 2} {y = a} {u = b * 2 / 2} {v = b} (omega arith) (omega arith),
    )

pub shift_bit-bit_xor :
    (a b : ℕ)
    → a < 2 ^ 16
    → b < 2 ^ 16
    → shift_bit (bit_xor a b) ≡ bit_xor (shift_bit a) (shift_bit b)
shift_bit-bit_xor a b ha hb =
    ap₂ (λ x y. shift_bit (bit_xor x y)) (split a) (split b)
    ∙ shift_bit_fields_linear (a / 2 ^ 15) (a % 2 ^ 15) (b / 2 ^ 15) (b % 2 ^ 15) (omega arith)
        (omega arith) (omega arith) (omega arith)
    ∙ ap₂ (λ x y. bit_xor (shift_bit x) (shift_bit y)) (sym (split a)) (sym (split b))
  where
    split : (n : ℕ) → n ≡ n / 2 ^ 15 * 2 ^ 15 + n % 2 ^ 15
    split n = omega arith

pub shift_bits-bit_xor :
    (n a b : ℕ)
    → a < 2 ^ 16
    → b < 2 ^ 16
    → shift_bits n (bit_xor a b) ≡ bit_xor (shift_bits n a) (shift_bits n b)
unfolding shift_bits
shift_bits-bit_xor zero a b ha hb = refl
shift_bits-bit_xor (suc n) a b ha hb =
    ap (shift_bits n) (shift_bit-bit_xor a b ha hb)
    ∙ shift_bits-bit_xor n (shift_bit a) (shift_bit b) (shift_bit-lt a) (shift_bit-lt b)
