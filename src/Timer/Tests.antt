-- ===== src/Timer/Tests.antt =====
-- A list of two timers, and the theorems at it.
use osu_cse.Base.{[], ◌∷◌, ◌≡◌, refl, arith}
use osu_cse.Base.Int.{pos, ◌+ℤ◌, ◌-ℤ◌, ◌*ℤ◌}
use osu_cse.Timeval.{Timeval, timeval_subtract, carry}
use osu_cse.Timeval.Laws.{micros}
use osu_cse.Timer.{
  Timers, find_timenode, elapsed, expire, add_timenode, delete_timenode, update_time_list,
}
use osu_cse.Timer.Deadlines.{deadlines, IsOrdered}
use osu_cse.Timer.Insertion.{IsInserted, start_of, add_timenode-IsInserted}
use osu_cse.Timer.Expiry.{IsExpired, update_time_list-IsExpired}
use osu_cse.Timer.Removal.{without, deadlines-delete_timenode}

abbrev last_read : Timeval
last_read = record { tv_sec = pos 10; tv_usec = pos 0 }

abbrev now : Timeval
now = record { tv_sec = pos 12; tv_usec = pos 500000 }

-- Timer 1 after two seconds, timer 2 half a second and three seconds later.
abbrev timers : Timers
timers = record {
  nodes =
      record { id = 1; delta_time = record { tv_sec = pos 2; tv_usec = pos 0 } }
      ∷ record { id = 2; delta_time = record { tv_sec = pos 3; tv_usec = pos 500000 } }
      ∷ [];
  lasttime = last_read;
}

first_expires : (update_time_list timers now).0 ≡ 1 ∷ []
unfolding update_time_list elapsed expire timeval_subtract ◌-ℤ◌ carry
first_expires = refl

timers-IsOrdered : IsOrdered timers.nodes
unfolding micros ◌+ℤ◌ ◌*ℤ◌
timers-IsOrdered = (omega arith, (omega arith, tt))

add_timenode-IsInserted_example :
    IsInserted 3
      (start_of timers 3 2000000 now +ℤ pos 2000000)
      (deadlines (start_of timers 3 2000000 now) timers.nodes)
      (deadlines (start_of timers 3 2000000 now) (add_timenode timers 3 2000000 now).nodes)
    × IsOrdered (add_timenode timers 3 2000000 now).nodes
unfolding find_timenode
add_timenode-IsInserted_example = add_timenode-IsInserted timers 3 2000000 now refl timers-IsOrdered

update_time_list-IsExpired_example :
    IsExpired
      (micros now)
      (update_time_list timers now).0
      (deadlines (micros last_read) timers.nodes)
      (deadlines
        (micros (update_time_list timers now).1.lasttime)
        (update_time_list timers now).1.nodes)
update_time_list-IsExpired_example = update_time_list-IsExpired timers now timers-IsOrdered refl

deadlines-delete_timenode_example :
    deadlines (pos 0) (delete_timenode timers.nodes 1) ≡ without 1 (deadlines (pos 0) timers.nodes)
deadlines-delete_timenode_example = deadlines-delete_timenode (pos 0) timers.nodes 1
