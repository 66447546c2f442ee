-- ===== src/Message/Reading.antt =====
-- What the timer and the driver make of the bytes that the other wrote.
use osu_cse.Base.{ℕ, ◌^◌, ◌<◌, ◌≡◌, ap, ap₂, ◌∙◌}
use osu_cse.Base.{List, length, some}
use osu_cse.Bytes.{int_bytes, from_bytes, strncpy, through_strncpy}
use osu_cse.Bytes.Laws.{
  from_bytes-int_bytes, below_zero_byte, through_strncpy_lem, length-strncpy, take-append_length,
}
use osu_cse.Timeval.{Timeval}
use osu_cse.Timer.{Timers, add_timenode, delete_timenode}
use osu_cse.Message.{
  start_message, cancel_message, resend_message, str_eq, handle_request, read_resend,
}

-- The timer handles what `starttimer` writes as a start of that timer, whatever the id.
pub handle_request-start_message :
    (micros_of : List ℕ → ℕ) (t : Timers) (id : ℕ) (interval info : List ℕ) (now : Timeval)
    → id < 2 ^ 32
    → length interval ≡ 8
    → handle_request micros_of t (start_message id interval info) now
      ≡ some (add_timenode t id (micros_of interval) now)
unfolding handle_request start_message str_eq strncpy int_bytes
handle_request-start_message micros_of t id interval info now h size =
    ap₂ (λ i d. some (add_timenode t i (micros_of d) now)) (from_bytes-int_bytes id h)
      (take-append_length 8 interval _ size)

-- The timer handles what `canceltimer` writes as a cancellation of the part of the id below its
-- lowest zero byte, which is the id itself if it is below 256.
pub handle_request-cancel_message :
    (micros_of : List ℕ → ℕ) (t : Timers) (id : ℕ) (now : Timeval)
    → id < 2 ^ 32
    → handle_request micros_of t (cancel_message id) now
      ≡ some (record t { nodes = delete_timenode t.nodes (below_zero_byte id) })
unfolding handle_request cancel_message str_eq through_strncpy
handle_request-cancel_message micros_of t id now h =
    ap (λ i. some (record t { nodes = delete_timenode t.nodes i }))
      (ap from_bytes
          (take-append_length 4 (strncpy (int_bytes id) 4) _ (length-strncpy (int_bytes id) 4))
        ∙ through_strncpy_lem id h)

-- The driver resends the frame of the timer that was due.
pub read_resend-resend_message : (id : ℕ) → id < 2 ^ 32 → read_resend (resend_message id) ≡ some id
unfolding read_resend resend_message str_eq strncpy int_bytes
read_resend-resend_message id h = ap some (from_bytes-int_bytes id h)
