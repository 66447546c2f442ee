-- ===== src/Driver/Tests.antt =====
-- A driver at the start, one at the end of its buffer, and the theorems at them.
use osu_cse.Base.{List, [], ◌∷◌, ◌++◌, ◌≡◌, refl, replicate, some, none, arith}
use osu_cse.Base.Int.{pos, negsuc, ◌*ℤ◌, ◌+ℤ◌, ◌-ℤ◌}
use osu_cse.Buffer.{slot, check_empty}
use osu_cse.Timeval.{Timeval}
use osu_cse.Rtt.{fresh_sock}
use osu_cse.Driver.{new_lar, scan_front, Driver, transmit, resend, has_room, take_block, unsent}
use osu_cse.Driver.Rounds.{Ready, run}
use osu_cse.Driver.Indexes.{IsSound, run-IsSound}
use osu_cse.Driver.Flight.{in_send_window, take_block-in_send_window}
use osu_cse.Driver.Sending.{IsDriver}
use osu_cse.Driver.Timeouts.{IsInTime, IsQuickAck, run-IsInTime}
use osu_cse.Ack.{Ack, open_ack, seal_ack}
use osu_cse.Ack.Answers.{open_ack-seal_ack}
use osu_cse.Crc.{crc_init}
use osu_cse.Message.{resend_message}
use osu_cse.Timeval.{calculate_rtt}

abbrev clock : Timeval
clock = record { tv_sec = pos 3; tv_usec = pos 0 }

-- Frames 0 and 1 are sent and not acknowledged, frame 2 waits.
abbrev at_start : Driver
at_start = record {
  sendbuf = (7 ∷ []) ∷ (8 ∷ []) ∷ (9 ∷ []) ∷ replicate 61 [];
  lar = negsuc 0;
  lfs = pos 1;
  bufpos = 3;
  tp = fresh_sock;
  rtt = 0;
  rto = 2000;
}

-- Only frame 63 is not acknowledged.
abbrev at_end : Driver
at_end = record at_start {
  sendbuf = replicate 63 [] ++ ((7 ∷ []) ∷ []);
  lar = pos 62;
  lfs = negsuc 0;
  bufpos = 0;
}

block_taken : (take_block at_start (5 ∷ [])).bufpos ≡ 4
unfolding take_block has_room ◌+ℤ◌ ◌-ℤ◌
block_taken = refl

-- The second scan, over frames 0 and 1, stops at the first.
nothing_at_front : new_lar at_start 64 ≡ pos 63
unfolding new_lar scan_front check_empty ◌+ℤ◌ ◌-ℤ◌
nothing_at_front = refl

resent : resend at_start 1 ≡ some (transmit at_start 1)
unfolding resend
resent = refl

not_resent : resend at_start 64 ≡ none
unfolding resend
not_resent = refl

take_block-in_send_window_example :
    slot (take_block at_start (5 ∷ [])).sendbuf 1 ≡ slot at_start.sendbuf 1
unfolding in_send_window
take_block-in_send_window_example = take_block-in_send_window at_start (5 ∷ []) 1 refl

-- A block comes in, then an acknowledgement that was garbled.
abbrev rounds : List Ready
rounds =
    record { request = none; block = some (5 ∷ []); ack = none; now = clock }
    ∷ record { request = none; block = none; ack = some (1 ∷ 2 ∷ []); now = clock }
    ∷ []

at_start-IsDriver : IsDriver at_start
unfolding ◌-ℤ◌ ◌+ℤ◌
at_start-IsDriver = record {
  lar_low = omega arith;
  lar_high = omega arith;
  lfs_low = omega arith;
  lfs_high = omega arith;
  bufpos = omega arith;
  sendbuf = refl;
}

run-IsSound_example : IsSound (run (λ stamp. clock) at_start rounds)
run-IsSound_example = run-IsSound (λ stamp. clock) rounds at_start at_start-IsDriver

-- The answer to frame 0.
abbrev first_ack : Ack
first_ack = record {
  ports = replicate 4 0;
  seq = 0;
  ack_seq = 0;
  flags = 3 ∷ replicate 3 0;
  check = 0;
  urgent = replicate 2 0;
  padding = replicate 4 0;
  time_stamp = replicate 16 9;
}

abbrev later : Timeval
later = record clock { tv_usec = pos 900 }

-- Frame 0 goes out, is asked for again and is acknowledged after 900 microseconds; frame 1 goes out.
abbrev answered : List Ready
answered =
    record { request = none; block = some (5 ∷ []); ack = none; now = clock }
    ∷ record {
      request = some (resend_message 0);
      block = some (6 ∷ []);
      ack = some (seal_ack crc_init first_ack);
      now = later;
    }
    ∷ []

first_ack-read : open_ack crc_init (seal_ack crc_init first_ack) ≡ some (0, replicate 16 9)
first_ack-read =
    open_ack-seal_ack first_ack
      (record {
        ports = refl;
        ports_bytes = omega arith;
        seq = omega arith;
        ack_seq = omega arith;
        flags = refl;
        flags_bytes = omega arith;
        urgent = refl;
        urgent_bytes = omega arith;
        padding = refl;
        padding_bytes = omega arith;
        time_stamp = refl;
        time_stamp_bytes = omega arith;
      })
      refl

answered-IsQuick : IsQuickAck 1000 (λ stamp. clock) later (some (seal_ack crc_init first_ack))
unfolding calculate_rtt ◌+ℤ◌ ◌-ℤ◌ ◌*ℤ◌
answered-IsQuick = rw first_ack-read (omega arith)

run-IsInTime_example : IsInTime 1000 (run (λ stamp. clock) unsent answered)
run-IsInTime_example =
    run-IsInTime 1000 (omega arith) (omega arith) (λ stamp. clock) answered
      (tt, (answered-IsQuick, tt))
