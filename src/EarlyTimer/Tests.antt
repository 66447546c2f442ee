-- ===== src/EarlyTimer/Tests.antt =====
-- Runs of the earlier timer, and its theorems at a list of three nodes.
use osu_cse.Base.{ℕ, List, [], ◌∷◌, ◌++◌, ◌≡◌, refl, Option, some, none, arith, replicate}
use osu_cse.Base.Int.{pos, ◌-ℤ◌, ◌+ℤ◌, ◌*ℤ◌}
use osu_cse.Timeval.{Timeval, from_micros, timeval_subtract, carry}
use osu_cse.Bytes.{strncpy}
use osu_cse.Message.{str_eq, stop_name, start_message, cancel_message}
use osu_cse.Bytes.{int_bytes, from_bytes}
use osu_cse.EarlyTimer.Acyclic.{IsListAfter, rounds-IsListAfter, IsLost, crashes-IsLost}
use osu_cse.Base.{◌↔◌}
use osu_cse.EarlyTimer.{
  Heap, Timers, search, print_from, delete_timenode, insert_at, insert, add_timenode, expire,
  update_time_list, ends, goes_on, crashes, handle_request, round, rounds, Arrival, no_timers,
}
use osu_cse.EarlyTimer.Links.{IsChain}
use osu_cse.EarlyTimer.Removal.{delete_timenode-IsChain}

-- The ids 7, 8 and 9, in this order, with links both ways.
abbrev three : Heap
three =
    record { id = 7; delta_time = from_micros 5000000; forward = none; next = some 1 }
    ∷ record { id = 8; delta_time = from_micros 1000000; forward = some 0; next = some 2 }
    ∷ record { id = 9; delta_time = from_micros 1500000; forward = some 1; next = none }
    ∷ []

delete_timenode-IsChain_example :
    (h' : Heap) × (delete_timenode three (some 0) 8 ≡ some (h', some 0))
    × IsChain h' (some 0) (0 ∷ 2 ∷ [])
delete_timenode-IsChain_example =
    delete_timenode-IsChain three (some 0) [] (2 ∷ []) 0 1 8
      (refl, (omega arith, (refl, (omega arith, (refl, (omega arith, refl)))))) (omega arith) tt
      (omega arith, tt) (omega arith, tt) refl refl

abbrev now : Timeval
now = record { tv_sec = pos 12; tv_usec = pos 500000 }

-- The ids 1, 2 and 3 wait for 20, 18 and 19 seconds.
abbrev start : Timers
start = record { heap = []; head = none; lasttime = from_micros 0 }

then_add : Option Timers → ℕ → ℕ → Option Timers
then_add none id d = none
then_add (some t) id d = add_timenode t id d now

abbrev sorted : Timers
sorted = record {
  heap =
      record { id = 1; delta_time = from_micros 1000000; forward = some 2; next = none }
      ∷ record { id = 2; delta_time = from_micros 18000000; forward = none; next = some 2 }
      ∷ record { id = 3; delta_time = from_micros 1000000; forward = some 1; next = some 0 }
      ∷ [];
  head = some 1;
  lasttime = now;
}

adds_in_order :
    then_add (then_add (add_timenode start 1 20000000 now) 2 18000000) 3 19000000 ≡ some sorted
unfolding then_add add_timenode insert insert_at search print_from timeval_subtract carry ◌-ℤ◌
adds_in_order = refl

-- Half a second after the last request the node waits for half a second less, if it is not due.
one_node : ℕ → Timers
one_node d = record {
  heap = record { id = 1; delta_time = from_micros d; forward = none; next = none } ∷ [];
  head = some 0;
  lasttime = record { tv_sec = pos 12; tv_usec = pos 0 };
}

waits_less : update_time_list (one_node 700000) now ≡ record (one_node 200000) { lasttime = now }
unfolding one_node update_time_list expire timeval_subtract carry ◌-ℤ◌ ◌+ℤ◌ ◌*ℤ◌
waits_less = refl

is_due : (update_time_list (one_node 500000) now).head ≡ none
unfolding one_node update_time_list expire timeval_subtract carry ◌-ℤ◌
is_due = refl

no_list : delete_timenode [] none 3 ≡ none
unfolding delete_timenode
no_list = refl

stopped :
    (micros_of : List ℕ → ℕ)
    → round micros_of start (some (stop_name ++ replicate 1196 0)) now now ≡ ends
unfolding round handle_request str_eq strncpy
stopped micros_of = refl

no_request : (micros_of : List ℕ → ℕ) → round micros_of start none now now ≡ ends
unfolding round
no_request micros_of = refl

-- Timer 1 is started for 20 seconds; 40 seconds later timer 2 is, whose list has then no other.
abbrev twenty_seconds : List ℕ → ℕ
twenty_seconds bytes = 20000000

abbrev much_later : Timeval
much_later = record { tv_sec = pos 52; tv_usec = pos 500000 }

abbrev starts : List Arrival
starts =
    record { request = some (start_message 1 (replicate 8 0) []); now = now; later = now }
    ∷ record {
      request = some (start_message 2 (replicate 8 0) []);
      now = much_later;
      later = much_later;
    }
    ∷ []

abbrev restarted : Timers
restarted = record {
  heap =
      record { id = 1; delta_time = from_micros 20000000; forward = none; next = none }
      ∷ record { id = 2; delta_time = from_micros 20000000; forward = none; next = none }
      ∷ [];
  head = some 1;
  lasttime = much_later;
}

rounds-starts : rounds twenty_seconds no_timers starts ≡ goes_on restarted
unfolding rounds round handle_request start_message update_time_list add_timenode expire insert
    insert_at search print_from timeval_subtract carry str_eq strncpy int_bytes from_bytes ◌-ℤ◌ ◌+ℤ◌
    ◌*ℤ◌
rounds-starts = refl

rounds-IsListAfter_example : IsListAfter (rounds twenty_seconds no_timers starts)
rounds-IsListAfter_example = rounds-IsListAfter twenty_seconds starts

-- 21 seconds on the list is empty.
abbrev at_last : Timeval
at_last = record { tv_sec = pos 73; tv_usec = pos 500000 }

crashes-IsLost_example :
    (round twenty_seconds restarted (some (cancel_message 2)) at_last at_last ≡ crashes)
    ↔ IsLost (update_time_list restarted at_last) (cancel_message 2)
crashes-IsLost_example =
    crashes-IsLost twenty_seconds starts restarted (cancel_message 2) at_last at_last rounds-starts

lost : IsLost (update_time_list restarted at_last) (cancel_message 2)
unfolding update_time_list expire timeval_subtract carry cancel_message str_eq strncpy ◌-ℤ◌ ◌+ℤ◌
    ◌*ℤ◌
lost = record { not_stop = refl; not_start = refl; cancel = refl; empty = refl }
