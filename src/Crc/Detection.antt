-- ===== src/Crc/Detection.antt =====
-- Which changes of a message `crcFast` cannot miss.
use osu_cse.Base.{ℕ, zero, suc, ◌+◌, ◌*◌, ◌/◌, ◌%◌, ◌^◌, ◌<◌, bit_xor, List, [], ◌∷◌, ◌++◌}
use osu_cse.Base.{◌≡◌, ◌≢◌, refl, sym, ap, ap₂, ◌∙◌, arith}
use osu_cse.Base.Bits.{bit_xor_step, bit_xor-zero, bit_xor_self, bit_xor_comm, bit_xor_assoc}
use osu_cse.Base.Bits.{bit_xor_fields, bit_xor-lt}
use osu_cse.Crc.{shift_bit, shift_bits, polynomial, crc_init, crc_from, crc_fast}
use osu_cse.Crc.Linear.{
  shift_bit_fields, shift_bit-lt, shift_bits-lt, shift_bit-bit_xor, shift_bits-bit_xor,
}
use osu_cse.Crc.Reference.{IsBytes, table_step, shift_bits_small}

bit_xor_cancel : (r x y : ℕ) → bit_xor r x ≡ bit_xor r y → x ≡ y
bit_xor_cancel r x y e = sym (undo x) ∙ ap (bit_xor r) e ∙ undo y
  where
    undo : (z : ℕ) → bit_xor r (bit_xor r z) ≡ z
    undo z =
        sym (bit_xor_assoc r r z)
        ∙ ap (λ t. bit_xor t z) (bit_xor_self r)
        ∙ bit_xor_comm 0 z
        ∙ bit_xor-zero z

eq_of_bit_xor : (x y : ℕ) → bit_xor x y ≡ 0 → x ≡ y
eq_of_bit_xor x y e = bit_xor_cancel y x y (bit_xor_comm y x ∙ e ∙ sym (bit_xor_self y))

-- The low digit of a step is the top digit that it took off.
top_of_step : (q s : ℕ) → q < 2 → s < 2 ^ 15 → shift_bit (q * 2 ^ 15 + s) ≡ 0 → (q ≡ 0) × (s ≡ 0)
top_of_step zero s hq hs e =
    (refl, omega (arith, e, shift_bit_fields 0 s hq hs, bit_xor-zero (s * 2)))
top_of_step (suc zero) s hq hs e =
    absurd (omega (arith, e, shift_bit_fields 1 s hq hs, bit_xor_step (s * 2) (1 * polynomial)))
top_of_step (suc (suc q)) s hq hs e = absurd (omega arith)

step_kernel : (x : ℕ) → x < 2 ^ 16 → shift_bit x ≡ 0 → x ≡ 0
step_kernel x h e =
    let parts =
      top_of_step (x / 2 ^ 15) (x % 2 ^ 15) (omega arith) (omega arith)
        (ap shift_bit {x = x / 2 ^ 15 * 2 ^ 15 + x % 2 ^ 15} {y = x} (omega arith) ∙ e) in
    omega (arith, parts)

shift_bit-injective : (a b : ℕ) → a < 2 ^ 16 → b < 2 ^ 16 → shift_bit a ≡ shift_bit b → a ≡ b
shift_bit-injective a b ha hb e = eq_of_bit_xor a b (
    step_kernel (bit_xor a b) (bit_xor-lt 16 a b ha hb) (
      shift_bit-bit_xor a b ha hb
      ∙ ap (λ t. bit_xor t (shift_bit b)) e
      ∙ bit_xor_self (shift_bit b)))

-- The division loses nothing of the register.
pub shift_bits-injective :
    (n a b : ℕ) → a < 2 ^ 16 → b < 2 ^ 16 → shift_bits n a ≡ shift_bits n b → a ≡ b
unfolding shift_bits
shift_bits-injective zero a b ha hb e = e
shift_bits-injective (suc n) a b ha hb e =
    shift_bit-injective a b ha hb
      (shift_bits-injective n (shift_bit a) (shift_bit b) (shift_bit-lt a) (shift_bit-lt b) e)

crc_from-cons :
    (message : List ℕ) (r b : ℕ)
    → r < 2 ^ 16
    → b < 256
    → crc_from crc_init r (b ∷ message)
      ≡ crc_from crc_init (shift_bits 8 (bit_xor r (b * 2 ^ 8))) message
unfolding crc_from
crc_from-cons message r b hr hb = ap (λ t. crc_from crc_init t message) (table_step r b hr hb)

crc_from-append :
    (xs ys : List ℕ) (r : ℕ)
    → crc_from crc_init r (xs ++ ys) ≡ crc_from crc_init (crc_from crc_init r xs) ys
unfolding crc_from
crc_from-append [] ys r = refl
crc_from-append (x ∷ xs) ys r = crc_from-append xs ys _

crc_from-lt : (xs : List ℕ) (r : ℕ) → r < 2 ^ 16 → crc_from crc_init r xs < 2 ^ 16
unfolding crc_from
crc_from-lt [] r h = h
crc_from-lt (x ∷ xs) r h = crc_from-lt xs _ (omega arith)

stepped-lt : (r b : ℕ) → r < 2 ^ 16 → b < 256 → shift_bits 8 (bit_xor r (b * 2 ^ 8)) < 2 ^ 16
stepped-lt r b hr hb =
    shift_bits-lt 8 (bit_xor r (b * 2 ^ 8)) (bit_xor-lt 16 r (b * 2 ^ 8) hr (omega arith))

-- What follows a difference cannot hide it.
crc_from-injective :
    (message : List ℕ) (r s : ℕ)
    → r < 2 ^ 16
    → s < 2 ^ 16
    → IsBytes message
    → crc_from crc_init r message ≡ crc_from crc_init s message
    → r ≡ s
unfolding crc_from
crc_from-injective [] r s hr hs h e = e
crc_from-injective (b ∷ message) r s hr hs h e = unmix (
    shift_bits-injective 8 (bit_xor r (b * 2 ^ 8)) (bit_xor s (b * 2 ^ 8))
      (bit_xor-lt 16 r (b * 2 ^ 8) hr (omega (arith, h.0)))
      (bit_xor-lt 16 s (b * 2 ^ 8) hs (omega (arith, h.0)))
      (crc_from-injective message (shift_bits 8 (bit_xor r (b * 2 ^ 8)))
        (shift_bits 8 (bit_xor s (b * 2 ^ 8))) (stepped-lt r b hr h.0) (stepped-lt s b hs h.0) h.1
        (sym (crc_from-cons message r b hr h.0) ∙ e ∙ crc_from-cons message s b hs h.0)))
  where
    unmix : bit_xor r (b * 2 ^ 8) ≡ bit_xor s (b * 2 ^ 8) → r ≡ s
    unmix p =
        bit_xor_cancel (b * 2 ^ 8) r s (bit_xor_comm (b * 2 ^ 8) r ∙ p ∙ bit_xor_comm s (b * 2 ^ 8))

-- Two bytes through the table are sixteen steps on the register with both mixed in.
two_bytes :
    (r b c : ℕ)
    → r < 2 ^ 16
    → b < 256
    → c < 256
    → shift_bits 8 (bit_xor (shift_bits 8 (bit_xor r (b * 2 ^ 8))) (c * 2 ^ 8))
      ≡ shift_bits 8 (shift_bits 8 (bit_xor r (b * 2 ^ 8 + c)))
two_bytes r b c hr hb hc = ap (shift_bits 8) (
    ap (bit_xor (shift_bits 8 (bit_xor r (b * 2 ^ 8)))) (sym (shift_bits_small 8 c (omega arith)))
    ∙ sym (
        shift_bits-bit_xor 8 (bit_xor r (b * 2 ^ 8)) c
          (bit_xor-lt 16 r (b * 2 ^ 8) hr (omega arith)) (omega arith))
    ∙ ap (shift_bits 8) (bit_xor_assoc r (b * 2 ^ 8) c ∙ ap (bit_xor r) joined))
  where
    joined : bit_xor (b * 2 ^ 8) c ≡ b * 2 ^ 8 + c
    joined =
        ap₂ bit_xor {x = b * 2 ^ 8} {y = b * 2 ^ 8 + 0} {u = c} {v = 0 * 2 ^ 8 + c} (omega arith)
          (omega arith)
        ∙ bit_xor_fields 8 b 0 0 c (omega arith) (omega arith)
        ∙ omega (arith, bit_xor-zero b, bit_xor_comm 0 c, bit_xor-zero c)

pair-crc :
    (ys : List ℕ) (r b c : ℕ)
    → r < 2 ^ 16
    → b < 256
    → c < 256
    → crc_from crc_init r (b ∷ c ∷ ys)
      ≡ crc_from crc_init (shift_bits 8 (shift_bits 8 (bit_xor r (b * 2 ^ 8 + c)))) ys
pair-crc ys r b c hr hb hc =
    crc_from-cons (c ∷ ys) r b hr hb
    ∙ crc_from-cons ys (shift_bits 8 (bit_xor r (b * 2 ^ 8))) c (stepped-lt r b hr hb) hc
    ∙ ap (λ t. crc_from crc_init t ys) (two_bytes r b c hr hb hc)

-- Equal checksums of two messages that differ in two neighbouring bytes at most.
burst-injective :
    (xs ys : List ℕ) (b c b' c' : ℕ)
    → b < 256
    → c < 256
    → b' < 256
    → c' < 256
    → IsBytes ys
    → crc_fast crc_init (xs ++ (b ∷ c ∷ ys)) ≡ crc_fast crc_init (xs ++ (b' ∷ c' ∷ ys))
    → (b ≡ b') × (c ≡ c')
unfolding crc_fast
burst-injective xs ys b c b' c' hb hc hb' hc' h e = omega (arith, same)
  where
    r : ℕ
    r = crc_from crc_init 0 xs

    hr : r < 2 ^ 16
    hr = crc_from-lt xs 0 (omega arith)

    mixed-lt : (u v : ℕ) → u < 256 → v < 256 → bit_xor r (u * 2 ^ 8 + v) < 2 ^ 16
    mixed-lt u v hu hv = bit_xor-lt 16 r (u * 2 ^ 8 + v) hr (omega arith)

    after : ℕ → ℕ → ℕ
    after u v = shift_bits 8 (bit_xor r (u * 2 ^ 8 + v))

    after-lt : (u v : ℕ) → u < 256 → v < 256 → after u v < 2 ^ 16
    after-lt u v hu hv = shift_bits-lt 8 (bit_xor r (u * 2 ^ 8 + v)) (mixed-lt u v hu hv)

    registers :
        crc_from crc_init (shift_bits 8 (after b c)) ys
        ≡ crc_from crc_init (shift_bits 8 (after b' c')) ys
    registers =
        sym (crc_from-append xs (b ∷ c ∷ ys) 0 ∙ pair-crc ys r b c hr hb hc)
        ∙ e
        ∙ crc_from-append xs (b' ∷ c' ∷ ys) 0
        ∙ pair-crc ys r b' c' hr hb' hc'

    same : b * 2 ^ 8 + c ≡ b' * 2 ^ 8 + c'
    same = bit_xor_cancel r (b * 2 ^ 8 + c) (b' * 2 ^ 8 + c') (
        shift_bits-injective 8 (bit_xor r (b * 2 ^ 8 + c)) (bit_xor r (b' * 2 ^ 8 + c'))
          (mixed-lt b c hb hc) (mixed-lt b' c' hb' hc')
          (shift_bits-injective 8 (after b c) (after b' c') (after-lt b c hb hc)
            (after-lt b' c' hb' hc')
            (crc_from-injective ys (shift_bits 8 (after b c)) (shift_bits 8 (after b' c'))
              (shift_bits-lt 8 (after b c) (after-lt b c hb hc))
              (shift_bits-lt 8 (after b' c') (after-lt b' c' hb' hc')) h registers)))

-- If two bytes in a row of a message, wherever they stand, are replaced by two others that are not
-- the same two, the checksum changes: no error burst within two neighbouring bytes passes `crcFast`.
pub burst_detected :
    (xs ys : List ℕ) (b c b' c' : ℕ)
    → b < 256
    → c < 256
    → b' < 256
    → c' < 256
    → IsBytes ys
    → ¬ ((b ≡ b') × (c ≡ c'))
    → crc_fast crc_init (xs ++ (b ∷ c ∷ ys)) ≢ crc_fast crc_init (xs ++ (b' ∷ c' ∷ ys))
burst_detected xs ys b c b' c' hb hc hb' hc' h differs e =
    differs (burst-injective xs ys b c b' c' hb hc hb' hc' h e)
