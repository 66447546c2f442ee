-- ===== src/Driver/Rounds.antt =====
-- One round of the loop of `client` in tcpd.c, after `select`: what is there of a request from the
-- timer, a block from ftpc and an acknowledgement is handled in this order, then a frame is sent.
use osu_cse.Base.{ℕ, List, [], ◌∷◌, ◌++◌, Option, none, some}
use osu_cse.Buffer.{Block}
use osu_cse.Timeval.{Timeval}
use osu_cse.Crc.{crc_init}
use osu_cse.Message.{read_resend}
use osu_cse.Ack.{open_ack}
use osu_cse.Driver.{
  Driver, Sent, AckOutcome, acked, overrun, resend, take_block, handle_ack, send_next,
}

-- What the descriptors that are ready give, and the clock.
pub record Ready : Type 0 where
  pub request : Option (List ℕ)
  pub block : Option Block
  pub ack : Option (List ℕ)
  pub now : Timeval

-- The driver afterwards with the frames sent and the ids of the timers cancelled, in order; `crashed`
-- is an access outside `sendbuf`.
pub data RoundOutcome : Type 0 where
  went_on : Driver → List Sent → List ℕ → RoundOutcome
  crashed : RoundOutcome

abbrev pub resent : Option (Driver × Sent) → RoundOutcome
resent none = crashed
resent (some (w, frame)) = went_on w (frame ∷ []) []

-- A request of the timer; another operation than "resend" is missed.
abbrev pub handle_resend : Driver → Option ℕ → RoundOutcome
handle_resend w none = went_on w [] []
handle_resend w (some id) = resent (resend w id)

unfoldable pub on_request : Driver → Option (List ℕ) → RoundOutcome
on_request w none = went_on w [] []
on_request w (some bufin) = handle_resend w (read_resend bufin)

unfoldable pub on_block : Driver → Option Block → Driver
on_block w none = w
on_block w (some block) = take_block w block

abbrev pub after_ack : ℕ → AckOutcome → RoundOutcome
after_ack ack (acked w) = went_on w [] (ack ∷ [])
after_ack ack overrun = crashed

-- `time_of` reads the bytes of a `struct timeval`.
abbrev pub opened : (List ℕ → Timeval) → Timeval → Driver → Option (ℕ × List ℕ) → RoundOutcome
opened time_of now w none = went_on w [] []
opened time_of now w (some (ack, stamp)) = after_ack ack (handle_ack w ack now (time_of stamp))

unfoldable pub on_ack : (List ℕ → Timeval) → Timeval → Driver → Option (List ℕ) → RoundOutcome
on_ack time_of now w none = went_on w [] []
on_ack time_of now w (some ackbuf) = opened time_of now w (open_ack crc_init ackbuf)

abbrev pub sent_last : Driver × Option Sent → RoundOutcome
sent_last (w, none) = went_on w [] []
sent_last (w, some frame) = went_on w (frame ∷ []) []

abbrev pub more : List Sent → List ℕ → RoundOutcome → RoundOutcome
more frames ids crashed = crashed
more frames ids (went_on w frames' ids') = went_on w (frames ++ frames') (ids ++ ids')

abbrev pub then_on : RoundOutcome → (Driver → RoundOutcome) → RoundOutcome
then_on crashed rest = crashed
then_on (went_on w frames ids) rest = more frames ids (rest w)

unfoldable pub round : (List ℕ → Timeval) → Driver → Ready → RoundOutcome
round time_of w r = then_on (on_request w r.request) (λ w'.
    then_on (on_ack time_of r.now (on_block w' r.block) r.ack) (λ w''. sent_last (send_next w'')))

-- The loop over the rounds.
unfoldable pub run : (List ℕ → Timeval) → Driver → List Ready → RoundOutcome
run time_of w [] = went_on w [] []
run time_of w (r ∷ rounds) = then_on (round time_of w r) (λ w'. run time_of w' rounds)
