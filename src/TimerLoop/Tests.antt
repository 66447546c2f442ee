-- ===== src/TimerLoop/Tests.antt =====
-- Runs of the timer's loop, and its theorems at two timers.
use osu_cse.Base.{ℕ, ◌≡◌, refl, List, [], ◌∷◌, ◌++◌, replicate, arith}
use osu_cse.Base.Int.{pos, ◌+ℤ◌, ◌-ℤ◌, ◌*ℤ◌}
use osu_cse.Bytes.{strncpy, from_bytes}
use osu_cse.Timeval.{Timeval, timeval_subtract, timeval_add, carry}
use osu_cse.Timeval.Laws.{micros}
use osu_cse.Timer.{
  TimeNode, elapsed, expire, update_time_list, delete_timenode, find_timenode, remove_node, hand_on,
}
use osu_cse.Message.{stop_name, cancel_name, str_eq, handle_request}
use osu_cse.TimerLoop.{
  Loop, forever, of_node, of_gone, Event, time_over, request_ready, goes_on, ends, left_behind,
}
use osu_cse.TimerLoop.{written, select_left, timed_out, timeout_after, loop_round, loop_rounds}
use osu_cse.TimerLoop.Waking.{IsAwake, loop_rounds-IsAwake}
use osu_cse.Base.{some}
use osu_cse.Timer.{Timers, add_timenode}
use osu_cse.Message.Reading.{handle_request-start_message}
use osu_cse.Message.{start_message, resend_message}
use osu_cse.Driver.{unsent, transmit}
use osu_cse.Driver.Rounds.{went_on, on_request}
use osu_cse.TimerLoop.Asking.{AreFair, HasAsked, unanswered_resent}
use osu_cse.TimerLoop.Early.{no_time, timed_out_early}

abbrev at : ℕ → Timeval
at n = record { tv_sec = pos n; tv_usec = pos 0 }

-- Timer 1 after two seconds, timer 2 one second later.
abbrev first_timer : TimeNode
first_timer = record { id = 1; delta_time = at 2 }

abbrev second_timer : TimeNode
second_timer = record { id = 2; delta_time = at 1 }

abbrev two : Loop
two = record {
  timers = record { nodes = first_timer ∷ second_timer ∷ []; lasttime = at 10 };
  timeout = of_node 1;
}

-- Two seconds later `select` left no time: both are asked for, though the second is due in a second.
both_at_once :
    timed_out (select_left two no_time) (at 12)
    ≡ (1 ∷ 2 ∷ [], record { timers = record { nodes = []; lasttime = at 12 }; timeout = forever })
unfolding timed_out select_left written update_time_list elapsed expire timeval_subtract carry ◌-ℤ◌
    left_behind
both_at_once = refl

-- With a `select` that leaves its timeout alone the second timer stays.
one_in_time : timed_out (select_left two (at 2)) (at 12) ≡ (
  1 ∷ [],
  record {
    timers = record { nodes = second_timer ∷ []; lasttime = at 12 };
    timeout = of_gone (at 2);
  },
)
unfolding timed_out select_left written update_time_list elapsed expire timeval_subtract carry ◌-ℤ◌
    left_behind
one_in_time = refl

timed_out_early_example :
    (more : List ℕ) × ((timed_out (select_left two no_time) (at 12)).0 ≡ 1 ∷ 2 ∷ more)
unfolding elapsed timeval_subtract carry micros ◌-ℤ◌ ◌+ℤ◌ ◌*ℤ◌
timed_out_early_example =
    timed_out_early two first_timer second_timer [] (at 12) refl refl (omega arith) (omega arith)

-- The first timer is cancelled, with its time on the clock, and the timer is stopped.
abbrev cancel_first : Event
cancel_first =
    request_ready (cancel_name ++ (replicate 4 0 ++ (1 ∷ replicate 1189 0))) (at 1) (at 11)

pointer_left :
    loop_round (λ bytes. 0) two cancel_first
    ≡ goes_on [] (record {
      timers = record { nodes = record { id = 2; delta_time = at 2 } ∷ []; lasttime = at 10 };
      timeout = of_gone (at 1);
    })
unfolding loop_round handle_request str_eq strncpy select_left written timeout_after delete_timenode
    find_timenode from_bytes remove_node hand_on timeval_add ◌+ℤ◌
pointer_left = refl

abbrev stop : Event
stop = request_ready (stop_name ++ replicate 1196 0) (at 1) (at 11)

stopped : loop_rounds (λ bytes. 0) two (stop ∷ cancel_first ∷ []) ≡ ends
unfolding loop_rounds loop_round handle_request str_eq strncpy
stopped = refl

loop_rounds-IsAwake_example :
    IsAwake (loop_rounds (λ bytes. 0) two (cancel_first ∷ time_over (at 0) (at 12) ∷ []))
loop_rounds-IsAwake_example =
    loop_rounds-IsAwake (λ bytes. 0) (cancel_first ∷ time_over (at 0) (at 12) ∷ []) two tt

-- Timer 3 is started for a second, then timer 1 is cancelled, which is not there.
abbrev no_timers : Timers
no_timers = record { nodes = []; lasttime = at 9 }

abbrev started_at : Loop
started_at = record {
  timers = record { nodes = record { id = 3; delta_time = at 1 } ∷ []; lasttime = at 10 };
  timeout = of_node 3;
}

abbrev one_second : List ℕ → ℕ
one_second bytes = 1000000

starts_third :
    handle_request one_second no_timers (start_message 3 (replicate 8 0) []) (at 10)
    ≡ some started_at.timers
unfolding add_timenode find_timenode
starts_third =
    handle_request-start_message one_second no_timers 3 (replicate 8 0) [] (at 10) (omega arith)
      refl

third_fair : AreFair one_second 3 (cancel_first ∷ time_over (at 0) (at 12) ∷ []) started_at
unfolding loop_round handle_request str_eq strncpy select_left written timeout_after delete_timenode
    find_timenode from_bytes micros ◌+ℤ◌ ◌*ℤ◌
third_fair = (
  ((omega arith, ((λ e. omega arith), tt)), refl, λ e. λ same. absurd (omega (arith, same))),
  (((omega arith, ((λ e. omega arith), tt)), refl), tt),
)

unanswered_resent_example :
    HasAsked 3 (loop_rounds one_second started_at (cancel_first ∷ time_over (at 0) (at 12) ∷ []))
    × (on_request unsent (some (resend_message 3))
        ≡ went_on (transmit unsent 3).0 ((transmit unsent 3).1 ∷ []) [])
unfolding micros ◌+ℤ◌ ◌*ℤ◌ find_timenode
unanswered_resent_example =
    unanswered_resent one_second no_timers started_at unsent 3 (replicate 8 0) [] (at 10)
      (cancel_first ∷ []) (at 0) (at 12) (omega arith) refl refl tt starts_third refl third_fair
      (omega arith)
