-- ===== src/Base/Bits.antt =====
-- Laws of `bit_xor` and `bit_and` at variables: one equation for the lowest digit of each, and
-- from it, by induction on a bound, the algebra of `^` and how both act on bit fields.
use Prim.Native.Nat.{ℕ, zero, suc, ◌+◌, ◌-◌, ◌*◌, ◌/◌, ◌%◌, ◌^◌, ◌≤◌, ◌<◌, min}
use Prim.Native.Nat.{bit_and, bit_xor, digits, differ, bit_and-bitwise, bit_xor-bitwise}
use mathlib.Core.Path.{◌≡◌, refl, ap, ap₂, ◌∙◌}
use native.Mathlib.Nat.{pow-suc}
use native.Mathlib.Omega.{arith}

-- Rounds beyond the number itself change nothing, so the fuel can be any that is enough.
module _ (low : ℕ → ℕ) (op : ℕ → ℕ → ℕ) where
  spare_round : (x y n : ℕ) → x ≤ n → digits low op (suc n) x y ≡ digits low op n x y
  spare_round zero y zero le = refl
  spare_round zero y (suc n) le = refl
  spare_round (suc x) y zero le = absurd (omega arith)
  spare_round (suc x) y (suc n) le = omega (arith, spare_round (suc x / 2) (y / 2) n (omega arith))

  spare_rounds : (k x y : ℕ) → digits low op (k + x) x y ≡ digits low op x x y
  spare_rounds zero x y = ap (λ fuel. digits low op fuel x y) {x = 0 + x} (omega arith)
  spare_rounds (suc k) x y =
      ap (λ fuel. digits low op fuel x y) {x = suc k + x} {y = suc (k + x)} (omega arith)
      ∙ spare_round x y (k + x) (omega arith)
      ∙ spare_rounds k x y

  one_round :
      (x y : ℕ)
      → digits low op (suc x) (suc x) y
        ≡ digits low op (suc x / 2) (suc x / 2) (y / 2) * 2 + op (suc x % 2) (y % 2)
  one_round x y = omega (
    arith,
    ap (λ fuel. digits low op fuel (suc x / 2) (y / 2)) enough,
    spare_rounds (x - suc x / 2) (suc x / 2) (y / 2),
  )
    where
      enough : x ≡ x - suc x / 2 + suc x / 2
      enough = omega arith

differ_digits : (x y : ℕ) → x < 2 → y < 2 → differ x y ≡ (x + y) % 2
differ_digits zero y hx hy = omega arith
differ_digits (suc zero) zero hx hy = refl
differ_digits (suc zero) (suc zero) hx hy = refl
differ_digits (suc zero) (suc (suc y)) hx hy = absurd (omega arith)
differ_digits (suc (suc x)) y hx hy = absurd (omega arith)

zero-bit_xor : (y : ℕ) → bit_xor 0 y ≡ y
zero-bit_xor y = bit_xor-bitwise 0 y

zero-bit_and : (y : ℕ) → bit_and 0 y ≡ 0
zero-bit_and y = bit_and-bitwise 0 y

pub bit_xor_step : (x y : ℕ) → bit_xor x y ≡ bit_xor (x / 2) (y / 2) * 2 + (x % 2 + y % 2) % 2
bit_xor_step zero y = omega (arith, zero-bit_xor y, zero-bit_xor (y / 2))
bit_xor_step (suc x) y = omega (
  arith,
  one_round (λ t. t) differ x y,
  bit_xor-bitwise (suc x / 2) (y / 2),
  bit_xor-bitwise (suc x) y,
  differ_digits (suc x % 2) (y % 2) (omega arith) (omega arith),
)

lower_digits : (x y : ℕ) → bit_and x y ≡ bit_and (x / 2) (y / 2) * 2 + min (x % 2) (y % 2)
lower_digits zero y = omega (arith, zero-bit_and (y / 2), zero-bit_and y)
lower_digits (suc x) y = omega (
  arith,
  one_round (λ t. 0) min x y,
  bit_and-bitwise (suc x / 2) (y / 2),
  bit_and-bitwise (suc x) y,
)

-- The laws below a bound on every number, and then without it.
zero_right : (n a : ℕ) → a ≤ n → bit_xor a 0 ≡ a
zero_right n zero h = zero-bit_xor 0
zero_right zero (suc a) h = absurd (omega arith)
zero_right (suc n) (suc a) h =
    omega (arith, bit_xor_step (suc a) 0, zero_right n (suc a / 2) (omega arith))

comm_below : (n a b : ℕ) → a ≤ n → b ≤ n → bit_xor a b ≡ bit_xor b a
comm_below n zero b ha hb = omega (arith, zero-bit_xor b, zero_right b b (omega arith))
comm_below zero (suc a) b ha hb = absurd (omega arith)
comm_below (suc n) (suc a) b ha hb = omega (
  arith,
  bit_xor_step (suc a) b,
  bit_xor_step b (suc a),
  comm_below n (suc a / 2) (b / 2) (omega arith) (omega arith),
)

pub bit_xor_comm : (a b : ℕ) → bit_xor a b ≡ bit_xor b a
bit_xor_comm a b = comm_below (a + b) a b (omega arith) (omega arith)

pub bit_xor-zero : (a : ℕ) → bit_xor a 0 ≡ a
bit_xor-zero a = zero_right a a (omega arith)

self_below : (n a : ℕ) → a ≤ n → bit_xor a a ≡ 0
self_below n zero h = zero-bit_xor 0
self_below zero (suc a) h = absurd (omega arith)
self_below (suc n) (suc a) h =
    omega (arith, bit_xor_step (suc a) (suc a), self_below n (suc a / 2) (omega arith))

pub bit_xor_self : (a : ℕ) → bit_xor a a ≡ 0
bit_xor_self a = self_below a a (omega arith)

-- The quotient and the remainder by 2 of an exclusive or.
halves :
    (a b : ℕ)
    → (bit_xor a b / 2 ≡ bit_xor (a / 2) (b / 2)) × (bit_xor a b % 2 ≡ (a % 2 + b % 2) % 2)
halves a b = omega (arith, bit_xor_step a b)

assoc_below :
    (n a b c : ℕ) → a ≤ n → b ≤ n → c ≤ n → bit_xor (bit_xor a b) c ≡ bit_xor a (bit_xor b c)
assoc_below zero zero b c ha hb hc =
    omega (arith, ap (λ t. bit_xor t c) (zero-bit_xor b), zero-bit_xor (bit_xor b c))
assoc_below zero (suc a) b c ha hb hc = absurd (omega arith)
assoc_below (suc n) a b c ha hb hc = omega (
  arith,
  bit_xor_step (bit_xor a b) c,
  bit_xor_step a (bit_xor b c),
  halves a b,
  halves b c,
  ap (λ t. bit_xor t (c / 2)) (halves a b).0,
  ap (λ t. bit_xor (a / 2) t) (halves b c).0,
  assoc_below n (a / 2) (b / 2) (c / 2) (omega arith) (omega arith) (omega arith),
)

pub bit_xor_assoc : (a b c : ℕ) → bit_xor (bit_xor a b) c ≡ bit_xor a (bit_xor b c)
bit_xor_assoc a b c = assoc_below (a + b + c) a b c (omega arith) (omega arith) (omega arith)

shift_digit : (q k : ℕ) → q * 2 ^ suc k ≡ 2 * (q * 2 ^ k)
shift_digit q k = omega (arith, ap (λ (t : ℕ). q * t) (pow-suc 2 k))

congruent : {a b c d : ℕ} → a ≡ c → b ≡ d → bit_xor a b ≡ bit_xor c d
congruent p q = ap₂ bit_xor p q

-- The operations act on the digits from the `k`th on and on those below it apart.
pub bit_xor_fields :
    (k p r q s : ℕ)
    → r < 2 ^ k
    → s < 2 ^ k
    → bit_xor (p * 2 ^ k + r) (q * 2 ^ k + s) ≡ bit_xor p q * 2 ^ k + bit_xor r s
bit_xor_fields zero p r q s hr hs = omega (
  arith,
  congruent {a = p * 2 ^ 0 + r} {b = q * 2 ^ 0 + s} {c = p} {d = q} (omega arith) (omega arith),
  congruent {a = r} {b = s} {c = 0} {d = 0} (omega arith) (omega arith),
  zero-bit_xor 0,
)
bit_xor_fields (suc k) p r q s hr hs = omega (
  arith,
  shift_digit p k,
  shift_digit q k,
  shift_digit (bit_xor p q) k,
  pow-suc 2 k,
  bit_xor_step (p * 2 ^ suc k + r) (q * 2 ^ suc k + s),
  bit_xor_step r s,
  congruent {a = (p * 2 ^ suc k + r) / 2} {b = (q * 2 ^ suc k + s) / 2} {c = p * 2 ^ k + r / 2}
      {d = q * 2 ^ k + s / 2} (omega (arith, shift_digit p k)) (omega (arith, shift_digit q k)),
  bit_xor_fields k p (r / 2) q (s / 2) (omega (arith, pow-suc 2 k)) (omega (arith, pow-suc 2 k)),
)

-- Numbers of `k` digits keep to `k` digits.
pub bit_xor-lt : (k a b : ℕ) → a < 2 ^ k → b < 2 ^ k → bit_xor a b < 2 ^ k
bit_xor-lt zero a b ha hb =
    omega
      (arith, congruent {a = a} {b = b} {c = 0} {d = 0} (omega arith) (omega arith), zero-bit_xor 0)
bit_xor-lt (suc k) a b ha hb = omega (
  arith,
  pow-suc 2 k,
  bit_xor_step a b,
  bit_xor-lt k (a / 2) (b / 2) (omega (arith, pow-suc 2 k)) (omega (arith, pow-suc 2 k)),
)

nothing_masked : (bound x : ℕ) → x ≤ bound → bit_and x 0 ≡ 0
nothing_masked bound zero le = zero-bit_and 0
nothing_masked zero (suc x) le = absurd (omega arith)
nothing_masked (suc bound) (suc x) le =
    omega (arith, nothing_masked bound (suc x / 2) (omega arith), lower_digits (suc x) 0)

bit_and-zero : (x : ℕ) → bit_and x 0 ≡ 0
bit_and-zero x = nothing_masked x x (omega arith)

-- A mask of the single digit `k` picks that digit.
pub bit_and_digit : (k q r : ℕ) → r < 2 ^ k → bit_and (q * 2 ^ k + r) (2 ^ k) ≡ q % 2 * 2 ^ k
bit_and_digit zero q r h =
    omega (arith, lower_digits (q * 2 ^ 0 + r) 1, bit_and-zero ((q * 2 ^ 0 + r) / 2))
bit_and_digit (suc k) q r h = omega (
  arith,
  shift_digit q k,
  shift_digit (q % 2) k,
  pow-suc 2 k,
  lower_digits (q * 2 ^ suc k + r) (2 ^ suc k),
  ap₂ bit_and {x = (q * 2 ^ suc k + r) / 2} {y = q * 2 ^ k + r / 2} (omega (arith, shift_digit q k))
      (halve k),
  bit_and_digit k q (r / 2) (omega (arith, pow-suc 2 k)),
)
  where
    halve : (n : ℕ) → 2 ^ suc n / 2 ≡ 2 ^ n
    halve n = omega (arith, pow-suc 2 n)
