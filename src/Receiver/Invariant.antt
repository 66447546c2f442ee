-- ===== src/Receiver/Invariant.antt =====
-- The relation between `lfr` and `laf`, and that nothing outside `recvbuf` is touched.
use osu_cse.Base.{◌≡◌}
use osu_cse.Base.{length}
use osu_cse.Base.{if◌then◌else◌}
use osu_cse.Base.Int.{pos, negsuc, ◌+ℤ◌, ◌-ℤ◌, ◌≤ℤ◌, ltb_ℤ}
use osu_cse.Buffer.{slots}
use osu_cse.Receiver.{Window}

-- The window is WINDOW frames wide, and goes round at the end of the buffer.
pub record IsWindow (w : Window) : Type 0 where
  pub size : length w.recvbuf ≡ slots
  pub low : negsuc 0 ≤ℤ w.lfr
  pub high : w.lfr ≤ℤ pos 63
  pub span : w.laf ≡ (if ltb_ℤ (pos 43) w.lfr then w.lfr -ℤ pos 44 else w.lfr +ℤ pos 20)
