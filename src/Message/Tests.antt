-- ===== src/Message/Tests.antt =====
-- The messages at concrete ids.
use osu_cse.Base.{ℕ, List, [], ◌∷◌, ◌≡◌, refl, some, none, arith}
use osu_cse.Base.Int.{pos}
use osu_cse.Timeval.{Timeval}
use osu_cse.Timer.{Timers, delete_timenode}
use osu_cse.Bytes.Laws.{below_zero_byte}
use osu_cse.Bytes.{strncpy}
use osu_cse.Message.{str_eq, stop_message, cancel_message, handle_request}
use osu_cse.Message.Reading.{handle_request-cancel_message}

-- One timer, of frame 256, and an interval of which the first byte counts microseconds.
abbrev now : Timeval
now = record { tv_sec = pos 7; tv_usec = pos 0 }

abbrev timers : Timers
timers = record {
  nodes = record { id = 256; delta_time = record { tv_sec = pos 1; tv_usec = pos 0 } } ∷ [];
  lasttime = now;
}

abbrev interval : List ℕ
interval = 9 ∷ 0 ∷ 0 ∷ 0 ∷ 0 ∷ 0 ∷ 0 ∷ 0 ∷ []

abbrev first_byte : List ℕ → ℕ
first_byte [] = 0
first_byte (byte ∷ bytes) = byte

stopped : handle_request first_byte timers (stop_message (0 ∷ [])) now ≡ none
unfolding handle_request stop_message str_eq strncpy
stopped = refl

handle_request-cancel_message_example :
    handle_request first_byte timers (cancel_message 256) now
    ≡ some (record timers { nodes = delete_timenode timers.nodes (below_zero_byte 256) })
handle_request-cancel_message_example =
    handle_request-cancel_message first_byte timers 256 now (omega arith)
