-- ===== src/TimerLoop/Asking.antt =====
-- That a timer is asked for once its time is over, and that its frame is then sent again.
use osu_cse.Base.{
  ℕ, ◌<◌, ◌≡◌, ◌≢◌, refl, sym, ap, ◌∙◌, arith, true, false, inl, inr, ◌⊎◌, Bool-cases, ltb,
}
use osu_cse.Base.{List, [], ◌∷◌, ◌++◌, length, some}
use osu_cse.Base.Int.{ℤ, pos, ◌+ℤ◌, ◌≤ℤ◌, ◌<ℤ◌, int_laws}
use mathlib.Core.Path.{subst}
use mathlib.Core.Option
use mathlib.Core.List.{Memᴰ}
use mathlib.Core.List.Memᴰ.{append_left, append_right}
use osu_cse.Timeval.{Timeval}
use osu_cse.Timeval.Laws.{micros}
use osu_cse.Timer.{Timers, find_timenode, add_timenode}
use osu_cse.Timer.Deadlines.{IsOrdered}
use osu_cse.Timer.Pending.{
  IsRead, IsPending, started-IsPending, add_timenode-IsPending, delete_timenode-IsPending,
  update_time_list-IsPending,
}
use osu_cse.Message.{
  str_eq, start_name, cancel_name, stop_name, operation_of, id_of, interval_of, handle_request,
  start_message, resend_message,
}
use osu_cse.Message.Reading.{handle_request-start_message, read_resend-resend_message}
use osu_cse.Buffer.{slots}
use osu_cse.Driver.{Driver, transmit, resend}
use osu_cse.Driver.Rounds.{went_on, resent, handle_resend, on_request}
use osu_cse.TimerLoop.{
  Loop, select_left, timed_out, Event, time_over, request_ready, select_failed, LoopStep, goes_on,
  ends, requested, loop_round, and_then, loop_rounds,
}
use osu_cse.TimerLoop.Shorter.{IsLeft, select_left-IsPending}

-- `select` does not fail and leaves what it may, the clock runs, and the request neither stops the loop nor cancels the
-- timer `id`.
abbrev pub IsFair : ℕ → Loop → Event → Type 0
IsFair id l (time_over left now) = IsLeft l.timers.nodes l.timeout left × IsRead now
IsFair id l (request_ready bufin left now) =
    IsLeft l.timers.nodes l.timeout left
    × (str_eq (operation_of bufin) stop_name ≡ false)
    × (str_eq (operation_of bufin) cancel_name ≡ true → id_of bufin ≢ id)
IsFair id l select_failed = ⊥

abbrev pub OnStep : (Loop → Type 0) → LoopStep → Type 0
OnStep P ends = Unit
OnStep P (goes_on ids l) = P l

abbrev pub AreFair : (List ℕ → ℕ) → ℕ → List Event → Loop → Type 0
AreFair micros_of id [] l = Unit
AreFair micros_of id (event ∷ events) l =
    IsFair id l event × OnStep (AreFair micros_of id events) (loop_round micros_of l event)

-- The loop went on, and asked for the timer.
abbrev pub HasAsked : ℕ → LoopStep → Type 0
HasAsked id ends = ⊥
HasAsked id (goes_on ids l) = Memᴰ id ids

-- The loop went on, and asked for the timer or still holds it.
abbrev HasKept : ℕ → ℤ → LoopStep → Type 0
HasKept id due ends = ⊥
HasKept id due (goes_on ids l) = Memᴰ id ids ⊎ IsPending id due l.timers

abbrev HasGoneOn : LoopStep → Type 0
HasGoneOn ends = ⊥
HasGoneOn (goes_on ids l) = Unit

request-HasKept :
    (micros_of : List ℕ → ℕ) (id : ℕ) (due : ℤ) (l : Loop) (bufin : List ℕ) (now : Timeval)
    → str_eq (operation_of bufin) stop_name ≡ false
    → (str_eq (operation_of bufin) cancel_name ≡ true → id_of bufin ≢ id)
    → IsPending id due l.timers
    → HasKept id due (requested l bufin (handle_request micros_of l.timers bufin now))
unfolding handle_request
request-HasKept micros_of id due l bufin now no_stop others h =
    elim (Bool-cases (str_eq (operation_of bufin) start_name)) [
      | inl start ↦
          rw (no_stop, start)
            (inr (
              add_timenode-IsPending id (id_of bufin) (micros_of (interval_of bufin)) due l.timers
                now h))
      | inr no_start ↦ elim (Bool-cases (str_eq (operation_of bufin) cancel_name)) [
        | inl cancel ↦
            rw (no_stop, no_start, cancel)
              (inr (delete_timenode-IsPending id (id_of bufin) due l.timers (others cancel) h))
        | inr no_cancel ↦ rw (no_stop, no_start, no_cancel) (inr h)
      ]
    ]

timed_out-kept :
    (id : ℕ) (due : ℤ) (l : Loop) (now : Timeval)
    → IsRead now
    → IsPending id due l.timers
    → Memᴰ id (timed_out l now).0
      ⊎ (IsPending id due (timed_out l now).1.timers × (micros now ≤ℤ due))
unfolding timed_out
timed_out-kept id due l now read h = update_time_list-IsPending id due l.timers now read h

loop_round-HasKept :
    (micros_of : List ℕ → ℕ) (id : ℕ) (due : ℤ) (l : Loop) (event : Event)
    → IsFair id l event
    → IsPending id due l.timers
    → HasKept id due (loop_round micros_of l event)
unfolding loop_round
loop_round-HasKept micros_of id due l (time_over left now) (less, read) h =
    elim (timed_out-kept id due (select_left l left) now read
      (select_left-IsPending id due l left less h)) [
        | inl asked ↦ inl asked
        | inr waits ↦ inr waits.0
      ]
loop_round-HasKept micros_of id due l (request_ready bufin left now) (less, no_stop, others) h =
    request-HasKept micros_of id due (select_left l left) bufin now no_stop others
      (select_left-IsPending id due l left less h)
loop_round-HasKept micros_of id due l select_failed fair h = absurd fair

-- Only a request to stop, or a failure of `select`, ends the loop.
request-HasGoneOn :
    (micros_of : List ℕ → ℕ) (l : Loop) (bufin : List ℕ) (now : Timeval)
    → str_eq (operation_of bufin) stop_name ≡ false
    → HasGoneOn (requested l bufin (handle_request micros_of l.timers bufin now))
unfolding handle_request
request-HasGoneOn micros_of l bufin now no_stop =
    elim (Bool-cases (str_eq (operation_of bufin) start_name)) [
      | inl start ↦ rw (no_stop, start) tt
      | inr no_start ↦ elim (Bool-cases (str_eq (operation_of bufin) cancel_name)) [
        | inl cancel ↦ rw (no_stop, no_start, cancel) tt
        | inr no_cancel ↦ rw (no_stop, no_start, no_cancel) tt
      ]
    ]

loop_round-HasGoneOn :
    (micros_of : List ℕ → ℕ) (id : ℕ) (l : Loop) (event : Event)
    → IsFair id l event
    → HasGoneOn (loop_round micros_of l event)
unfolding loop_round
loop_round-HasGoneOn micros_of id l (time_over left now) fair = tt
loop_round-HasGoneOn micros_of id l (request_ready bufin left now) (less, no_stop, others) =
    request-HasGoneOn micros_of (select_left l left) bufin now no_stop
loop_round-HasGoneOn micros_of id l select_failed fair = absurd fair

-- What holds after a step and the rest of the rounds.
then-HasGoneOn :
    (o : LoopStep) (rest : Loop → LoopStep)
    → HasGoneOn o
    → OnStep (λ l. HasGoneOn (rest l)) o
    → HasGoneOn (and_then o rest)
then-HasGoneOn ends rest h next = absurd h
then-HasGoneOn (goes_on ids l) rest h next = go (rest l) next
  where
    go :
        (o : LoopStep)
        → HasGoneOn o
        → HasGoneOn (elim o [ ends ↦ ends | goes_on more l' ↦ goes_on (ids ++ more) l' ])
    go ends h = absurd h
    go (goes_on more l') h = tt

OnStep-map :
    (P Q : Loop → Type 0) (o : LoopStep) → ((l : Loop) → P l → Q l) → OnStep P o → OnStep Q o
OnStep-map P Q ends f h = tt
OnStep-map P Q (goes_on ids l) f h = f l h

loop_rounds-HasGoneOn :
    (micros_of : List ℕ → ℕ) (id : ℕ) (events : List Event) (l : Loop)
    → AreFair micros_of id events l
    → HasGoneOn (loop_rounds micros_of l events)
unfolding loop_rounds
loop_rounds-HasGoneOn micros_of id [] l fair = tt
loop_rounds-HasGoneOn micros_of id (event ∷ events) l (fair, later) =
    then-HasGoneOn (loop_round micros_of l event) _ (loop_round-HasGoneOn micros_of id l event fair)
      (OnStep-map _ _ (loop_round micros_of l event)
        (λ l' h. loop_rounds-HasGoneOn micros_of id events l' h) later)

then-HasAsked :
    (id : ℕ) (due : ℤ) (o : LoopStep) (rest : Loop → LoopStep)
    → HasKept id due o
    → OnStep (λ l. HasGoneOn (rest l) × (IsPending id due l.timers → HasAsked id (rest l))) o
    → HasAsked id (and_then o rest)
then-HasAsked id due ends rest h next = absurd h
then-HasAsked id due (goes_on ids l) rest (inl asked) (on, next) = go (rest l) on
  where
    go :
        (o : LoopStep)
        → HasGoneOn o
        → HasAsked id (elim o [ ends ↦ ends | goes_on more l' ↦ goes_on (ids ++ more) l' ])
    go ends h = absurd h
    go (goes_on more l') h = append_left more asked
then-HasAsked id due (goes_on ids l) rest (inr waits) (on, next) = go (rest l) (next waits)
  where
    go :
        (o : LoopStep)
        → HasAsked id o
        → HasAsked id (elim o [ ends ↦ ends | goes_on more l' ↦ goes_on (ids ++ more) l' ])
    go ends h = absurd h
    go (goes_on more l') h = append_right ids h

-- The first timeout behind the time at which a timer is due asks for it, if it was not asked for before.
loop_rounds-HasAsked :
    (micros_of : List ℕ → ℕ) (id : ℕ) (due : ℤ) (events : List Event) (left later : Timeval)
    (l : Loop)
    → due <ℤ micros later
    → IsPending id due l.timers
    → AreFair micros_of id (events ++ (time_over left later ∷ [])) l
    → HasAsked id (loop_rounds micros_of l (events ++ (time_over left later ∷ [])))
unfolding loop_rounds loop_round
loop_rounds-HasAsked micros_of id due [] left later l over_due h ((less, read), rest) =
    elim (timed_out-kept id due (select_left l left) later read
      (select_left-IsPending id due l left less h)) [
        | inl asked ↦ append_left [] asked
        | inr waits ↦ absurd (not_both (micros later) due over_due waits.1)
      ]
  where
    not_both : (a b : ℤ) → b <ℤ a → a ≤ℤ b → ⊥
    not_both a b h k = omega (int_laws, h, k)
loop_rounds-HasAsked micros_of id due (event ∷ events) left later l over_due h (fair, rest) =
    then-HasAsked id due (loop_round micros_of l event) _
      (loop_round-HasKept micros_of id due l event fair h)
      (OnStep-map _ _ (loop_round micros_of l event)
        (λ l' fair'. (
          loop_rounds-HasGoneOn micros_of id (events ++ (time_over left later ∷ [])) l' fair',
          λ h'. loop_rounds-HasAsked micros_of id due events left later l' over_due h' fair',
        ))
        rest)

resend_again :
    (w : Driver) (seq : ℕ)
    → seq < slots
    → on_request w (some (resend_message seq))
      ≡ went_on (transmit w seq).0 ((transmit w seq).1 ∷ []) []
unfolding on_request
resend_again w seq inside =
    ap (handle_resend w) (read_resend-resend_message seq (omega (arith, inside)))
    ∙ ap resent (resend-inside (is_inside seq inside))
  where
    resend-inside : ltb seq slots ≡ true → resend w seq ≡ some (transmit w seq)
    resend-inside h = unfold resend in rw h refl

    is_inside : (n : ℕ) → n < slots → ltb n slots ≡ true
    is_inside n h = ground arith

-- A frame whose timer is not cancelled is sent again: from the request that starts its timer, under a
-- number that was not in the list, on, whatever other requests come and however often the timeout is
-- over, the first timeout after its time, at the latest, asks for it, and the driver then sends what
-- stands in its slot. This is so if the loop is not stopped, `select` never fails, as it does for a
-- timeout of negative microseconds, and leaves no more of its timeout than there was, and the clock is not at zero.
pub unanswered_resent :
    (micros_of : List ℕ → ℕ) (t : Timers) (l : Loop) (w : Driver) (seq : ℕ) (interval info : List ℕ)
    (now : Timeval) (events : List Event) (left later : Timeval)
    → seq < slots
    → length interval ≡ 8
    → find_timenode t.nodes seq ≡ false
    → IsOrdered t.nodes
    → handle_request micros_of t (start_message seq interval info) now ≡ some l.timers
    → IsRead l.timers.lasttime
    → AreFair micros_of seq (events ++ (time_over left later ∷ [])) l
    → micros l.timers.lasttime +ℤ pos (micros_of interval) <ℤ micros later
    → HasAsked seq (loop_rounds micros_of l (events ++ (time_over left later ∷ [])))
      × (on_request w (some (resend_message seq))
          ≡ went_on (transmit w seq).0 ((transmit w seq).1 ∷ []) [])
unanswered_resent micros_of t l w seq interval info now events left later inside size fresh o
      started read fair over_due =
    (
      loop_rounds-HasAsked micros_of seq (micros l.timers.lasttime +ℤ pos (micros_of interval))
          events left later l over_due
          (subst (λ u. IsPending seq (micros u.lasttime +ℤ pos (micros_of interval)) u) same
            (started-IsPending seq (micros_of interval) t now fresh o
              (subst (λ u. IsRead u.lasttime) (sym same) read)))
          fair,
      resend_again w seq inside,
    )
  where
    same : add_timenode t seq (micros_of interval) now ≡ l.timers
    same =
        ap (λ o. Option.get_or o t)
          (sym (
              handle_request-start_message micros_of t seq interval info now (omega (arith, inside))
                size)
            ∙ started)
