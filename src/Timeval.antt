-- ===== src/Timeval.antt =====
-- `struct timeval` and its arithmetic in tcpd.c. Seconds and microseconds are signed and taken
-- without bound; `timeval_subtract` writes through `y`, so its new value is returned.
pub mod Laws
mod Tests
use osu_cse.Base.{ℕ, ◌+◌, ◌-◌, ◌*◌, ◌/◌, ◌%◌, ◌^◌, Bool, if◌then◌else◌}
use osu_cse.Base.Int.{ℤ, pos, pos_part, neg_part, ◌+ℤ◌, ◌-ℤ◌, ◌*ℤ◌, ltb_ℤ}

pub record Timeval : Type 0 where
  pub tv_sec : ℤ
  pub tv_usec : ℤ

abbrev pub million : ℕ
million = 1000000

-- `(time_t)dtime` and the microseconds left, for a `dtime` of `d` microseconds.
abbrev pub from_micros : ℕ → Timeval
from_micros d = record { tv_sec = pos (d / million); tv_usec = pos (d % million) }

-- The whole seconds in a difference that is not negative, the `/ 1000000` of C.
abbrev pub whole_seconds : ℤ → ℕ
whole_seconds d = pos_part d / million

-- The first two tests: `y` is written anew so that no borrow is needed.
pub borrow : Timeval → Timeval → Timeval
borrow x y =
    if ltb_ℤ x.tv_usec y.tv_usec
    then record {
      tv_sec = y.tv_sec +ℤ pos (whole_seconds (y.tv_usec -ℤ x.tv_usec) + 1);
      tv_usec = y.tv_usec -ℤ pos (whole_seconds (y.tv_usec -ℤ x.tv_usec) + 1) *ℤ million;
    }
    else y

pub repay : Timeval → Timeval → Timeval
repay x y =
    if ltb_ℤ (pos million) (x.tv_usec -ℤ y.tv_usec)
    then record {
      tv_sec = y.tv_sec -ℤ pos (whole_seconds (x.tv_usec -ℤ y.tv_usec));
      tv_usec = y.tv_usec +ℤ pos (whole_seconds (x.tv_usec -ℤ y.tv_usec)) *ℤ million;
    }
    else y

-- What `y` holds afterwards.
unfoldable pub carry : Timeval → Timeval → Timeval
unfolding borrow repay
carry x y = repay x (borrow x y)

pub record Difference : Type 0 where
  pub result : Timeval
  pub y : Timeval
  pub negative : Bool

unfoldable pub timeval_subtract : Timeval → Timeval → Difference
timeval_subtract x y = record {
  result = record {
    tv_sec = x.tv_sec -ℤ (carry x y).tv_sec;
    tv_usec = x.tv_usec -ℤ (carry x y).tv_usec;
  };
  y = carry x y;
  negative = ltb_ℤ x.tv_sec (carry x y).tv_sec;
}

unfoldable pub timeval_add : Timeval → Timeval → Timeval
timeval_add x y = record { tv_sec = x.tv_sec +ℤ y.tv_sec; tv_usec = x.tv_usec +ℤ y.tv_usec }

-- The conversion of a signed number to `u32`.
abbrev pub to_u32 : ℤ → ℕ
to_u32 a = (pos_part a + neg_part a * (2 ^ 32 - 1)) % 2 ^ 32

unfoldable pub calculate_rtt : Timeval → Timeval → ℕ
calculate_rtt x y =
    if ltb_ℤ x.tv_usec y.tv_usec
    then to_u32
        (x.tv_usec +ℤ pos million -ℤ y.tv_usec +ℤ (x.tv_sec -ℤ pos 1 -ℤ y.tv_sec) *ℤ million)
    else to_u32 (x.tv_usec -ℤ y.tv_usec +ℤ (x.tv_sec -ℤ y.tv_sec) *ℤ million)
