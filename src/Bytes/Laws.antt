-- ===== src/Bytes/Laws.antt =====
-- What survives the way through the bytes.
use osu_cse.Base.{ℕ, ◌/◌, ◌%◌, ◌^◌, ◌<◌, ◌≡◌, arith, ◌==◌, if◌then◌else◌, zero, suc, refl, ap}
use osu_cse.Base.{List, [], ◌∷◌, ◌++◌, length, take, length-replicate}
use osu_cse.Bytes.{int_bytes, from_bytes, strncpy, through_strncpy}

pub from_bytes-int_bytes : (n : ℕ) → n < 2 ^ 32 → from_bytes (int_bytes n) ≡ n
unfolding from_bytes int_bytes
from_bytes-int_bytes n h = omega arith

-- The part of a number below its lowest zero byte.
unfoldable pub below_zero_byte : ℕ → ℕ
below_zero_byte n =
    if n % 2 ^ 8 == 0
    then 0
    else if n / 2 ^ 8 % 2 ^ 8 == 0
    then n % 2 ^ 8
    else if n / 2 ^ 16 % 2 ^ 8 == 0
    then n % 2 ^ 16
    else n

-- Of an `int` copied by `strncpy` only the bytes below the lowest zero byte arrive.
pub through_strncpy_lem : (n : ℕ) → n < 2 ^ 32 → through_strncpy n ≡ below_zero_byte n
unfolding through_strncpy below_zero_byte
through_strncpy_lem n h = ground arith

pub through_strncpy_small : (n : ℕ) → n < 256 → through_strncpy n ≡ n
unfolding through_strncpy
through_strncpy_small n h = ground arith

pub through_strncpy_lost : (n : ℕ) → n < 2 ^ 32 → n % 256 ≡ 0 → through_strncpy n ≡ 0
unfolding through_strncpy
through_strncpy_lost n h e = ground arith

pub length-strncpy : (source : List ℕ) (n : ℕ) → length (strncpy source n) ≡ n
unfolding strncpy
length-strncpy source zero = refl
length-strncpy [] (suc n) = ap suc (length-strncpy [] n)
length-strncpy (byte ∷ source) (suc n) =
    ground (arith, length-strncpy source n, length-replicate {A = ℕ} n 0)

pub take-append_length : (n : ℕ) (xs ys : List ℕ) → length xs ≡ n → take n (xs ++ ys) ≡ xs
take-append_length zero [] ys h = refl
take-append_length zero (x ∷ xs) ys h = absurd (omega arith)
take-append_length (suc n) [] ys h = absurd (omega arith)
take-append_length (suc n) (x ∷ xs) ys h =
    ap (λ l. x ∷ l) (take-append_length n xs ys (omega arith))
