-- ===== src/Bytes.antt =====
-- Bytes of integers in memory (little-endian, as on the hosts that the program runs on), and
-- `strncpy`, which stops at the first zero byte of its source and fills up with zeros.
pub mod Laws
use osu_cse.Base.{ℕ, zero, suc, ◌+◌, ◌*◌, ◌/◌, ◌%◌, ◌^◌, ◌==◌, if◌then◌else◌, List, [], ◌∷◌}
use osu_cse.Base.{replicate}

-- The four bytes of an `int` or a `u32`.
unfoldable pub int_bytes : ℕ → List ℕ
int_bytes n = n % 2 ^ 8 ∷ n / 2 ^ 8 % 2 ^ 8 ∷ n / 2 ^ 16 % 2 ^ 8 ∷ n / 2 ^ 24 % 2 ^ 8 ∷ []

-- The number whose bytes these are.
unfoldable pub from_bytes : List ℕ → ℕ
from_bytes [] = 0
from_bytes (byte ∷ rest) = byte + from_bytes rest * 2 ^ 8

-- The `n` bytes that `strncpy` writes.
unfoldable pub strncpy : List ℕ → ℕ → List ℕ
strncpy source zero = []
strncpy [] (suc n) = 0 ∷ strncpy [] n
strncpy (byte ∷ source) (suc n) = if byte == 0 then replicate (suc n) 0 else byte ∷ strncpy source n

-- An `int` that is copied by `strncpy` and read back by `memcpy`.
unfoldable pub through_strncpy : ℕ → ℕ
unfolding int_bytes from_bytes strncpy
through_strncpy n = from_bytes (strncpy (int_bytes n) 4)

-- The text in a buffer, up to the first zero byte.
unfoldable pub c_string : List ℕ → List ℕ
c_string [] = []
c_string (c ∷ rest) = if c == 0 then [] else c ∷ c_string rest
