-- ===== src/Timeval/Tests.antt =====
-- Runs of the time arithmetic, and its theorems at concrete times.
use osu_cse.Base.{◌≡◌, refl, true}
use osu_cse.Base.Int.{pos, negsuc, ◌+ℤ◌, ◌-ℤ◌, ◌*ℤ◌}
use osu_cse.Timeval.{Timeval, carry, timeval_subtract}
use osu_cse.Timeval.Laws.{IsDifference, timeval_subtract-IsDifference}

abbrev early : Timeval
early = record { tv_sec = pos 2; tv_usec = pos 900000 }

abbrev late : Timeval
late = record { tv_sec = pos 4; tv_usec = pos 100000 }

-- A time with a negative number of microseconds, equal to `early`.
abbrev owing : Timeval
owing = record { tv_sec = pos 3; tv_usec = negsuc 99999 }

in_order : (timeval_subtract early late).negative ≡ true
unfolding timeval_subtract carry ◌-ℤ◌ ◌*ℤ◌ ◌+ℤ◌
in_order = refl

borrowed_second :
    (timeval_subtract late early).result ≡ record { tv_sec = pos 1; tv_usec = pos 200000 }
unfolding timeval_subtract carry ◌-ℤ◌ ◌*ℤ◌ ◌+ℤ◌
borrowed_second = refl

-- Equal times that the flag calls different: the microseconds differ by a million.
equal_but_negative : (timeval_subtract early owing).negative ≡ true
unfolding timeval_subtract carry ◌-ℤ◌ ◌*ℤ◌ ◌+ℤ◌
equal_but_negative = refl

timeval_subtract-IsDifference_example : IsDifference late owing (timeval_subtract late owing)
timeval_subtract-IsDifference_example = timeval_subtract-IsDifference late owing
