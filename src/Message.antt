-- ===== src/Message.antt =====
-- The requests that the driver of tcpd.c writes to the pipe of the timer process, byte by byte,
-- and how the timer reads them.
pub mod Reading
mod Tests
use osu_cse.Base.{ℕ, zero, suc, ◌+◌, Bool, true, false, ◌==◌, if◌then◌else◌, List, [], ◌∷◌, ◌++◌}
use osu_cse.Base.{Option, none, some, take, drop, replicate}
use osu_cse.Bytes.{int_bytes, from_bytes, strncpy}
use osu_cse.Timeval.{Timeval}
use osu_cse.Timer.{Timers, add_timenode, delete_timenode}

abbrev pub opt_size : ℕ
opt_size = 10

abbrev pub id_size : ℕ
id_size = 4

abbrev pub info_size : ℕ
info_size = 1000

abbrev pub buffer_size : ℕ
buffer_size = 1200

-- `char operation[OPT_SIZE] = "…";`: the text and zeros.
abbrev pub start_name : List ℕ
start_name = b's' ∷ b't' ∷ b'a' ∷ b'r' ∷ b't' ∷ []

abbrev pub cancel_name : List ℕ
cancel_name = b'c' ∷ b'a' ∷ b'n' ∷ b'c' ∷ b'e' ∷ b'l' ∷ []

abbrev pub stop_name : List ℕ
stop_name = b's' ∷ b't' ∷ b'o' ∷ b'p' ∷ []

abbrev pub resend_name : List ℕ
resend_name = b'r' ∷ b'e' ∷ b's' ∷ b'e' ∷ b'n' ∷ b'd' ∷ []

-- `starttimer`: `interval` are the eight bytes of the double, `info` those of the text.
unfoldable pub start_message : ℕ → List ℕ → List ℕ → List ℕ
start_message id interval info =
    strncpy start_name opt_size
    ++ (int_bytes id ++ (interval ++ (strncpy info info_size ++ replicate 178 0)))

-- `canceltimer`, which copies the id by `strncpy` too.
unfoldable pub cancel_message : ℕ → List ℕ
cancel_message id =
    strncpy cancel_name opt_size ++ (strncpy (int_bytes id) id_size ++ replicate 1186 0)

-- `stop_timing` leaves the `rest` of the buffer as it is.
pub stop_message : List ℕ → List ℕ
stop_message rest = strncpy stop_name opt_size ++ rest

-- What `update_time_list` writes back for a timer that is due.
pub resend_message : ℕ → List ℕ
resend_message id = strncpy resend_name opt_size ++ (int_bytes id ++ replicate 1186 0)

-- `strcmp(operation, name) == 0`, for a name with no zero byte.
unfoldable pub str_eq : List ℕ → List ℕ → Bool
str_eq [] [] = true
str_eq [] (b ∷ name) = false
str_eq (a ∷ operation) [] = a == 0
str_eq (a ∷ operation) (b ∷ name) = if a == b then str_eq operation name else false

abbrev pub operation_of : List ℕ → List ℕ
operation_of bufin = strncpy bufin opt_size

abbrev pub id_of : List ℕ → ℕ
id_of bufin = from_bytes (take id_size (drop opt_size bufin))

abbrev pub interval_of : List ℕ → List ℕ
interval_of bufin = take 8 (drop (opt_size + id_size) bufin)

-- The timer process for one request; `none` ends its loop. `micros_of` reads the bytes of a double
-- as microseconds.
unfoldable pub handle_request : (List ℕ → ℕ) → Timers → List ℕ → Timeval → Option Timers
handle_request micros_of t bufin now =
    if str_eq (operation_of bufin) stop_name
    then none
    else if str_eq (operation_of bufin) start_name
    then some (add_timenode t (id_of bufin) (micros_of (interval_of bufin)) now)
    else if str_eq (operation_of bufin) cancel_name
    then some (record t { nodes = delete_timenode t.nodes (id_of bufin) })
    else some t

-- The id that the driver takes from a request of the timer; `none` is the request that it misses.
pub read_resend : List ℕ → Option ℕ
read_resend bufin = if str_eq (operation_of bufin) resend_name then some (id_of bufin) else none
