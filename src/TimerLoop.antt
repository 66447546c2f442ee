-- ===== src/TimerLoop.antt =====
-- The loop of the timer process in tcpd.c. Its timeout is a pointer to the time of a node, through
-- which `select` writes what is left of it on some systems.
pub mod Waking
pub mod Early
pub mod Shorter
pub mod Asking
mod Tests
use osu_cse.Base.{
  ℕ, Bool, true, false, ◌==◌, if◌then◌else◌, List, [], ◌∷◌, ◌++◌, Option, none, some,
}
use osu_cse.Timeval.{Timeval, timeval_subtract}
use osu_cse.Timer.{TimeNode, Timers, elapsed, update_time_list}
use osu_cse.Message.{str_eq, start_name, cancel_name, operation_of, id_of, handle_request}

-- `timeout1`: NULL, or the time of the node with this id, or that of a node that left the list,
-- whose memory is never given back.
pub data Timeout : Type 0 where
  forever : Timeout
  of_node : ℕ → Timeout
  of_gone : Timeval → Timeout

pub record Loop : Type 0 where
  pub timers : Timers
  pub timeout : Timeout

-- A node's time is overwritten.
pub written : List TimeNode → ℕ → Timeval → List TimeNode
written [] id left = []
written (node ∷ rest) id left =
    let others = written rest id left in
    if node.id == id then record node { delta_time = left } ∷ rest else node ∷ others

abbrev pub select_writes : Loop → Timeout → Timeval → Loop
select_writes l forever left = l
select_writes l (of_node id) left = record l {
  timers = record (l.timers) { nodes = written l.timers.nodes id left };
}
select_writes l (of_gone old) left = record l { timeout = of_gone left }

-- `select` leaves `left` in its timeout, if there is one.
pub select_left : Loop → Timeval → Loop
select_left l left = select_writes l l.timeout left

-- What the node of that id holds, if it is one of those that `update_time_list` drops.
pub left_behind : Timeval → List TimeNode → ℕ → Option Timeval
left_behind dtime [] id = none
left_behind dtime (node ∷ rest) id =
    let test = timeval_subtract dtime node.delta_time in
    let passed = timeval_subtract dtime test.y in
    let others = left_behind passed.result rest id in
    if test.negative then none else if node.id == id then some passed.y else others

-- The pointer once its node may have left the list, with the time that it holds.
abbrev pub repointed : Timeout → Option Timeval → Timeout
repointed forever time = forever
repointed (of_gone t) time = of_gone t
repointed (of_node id) none = of_node id
repointed (of_node id) (some t) = of_gone t

abbrev pub dropped_from : Timeval → List TimeNode → Timeout → Timeout
dropped_from dtime nodes forever = forever
dropped_from dtime nodes (of_gone t) = of_gone t
dropped_from dtime nodes (of_node id) = repointed (of_node id) (left_behind dtime nodes id)

-- `if (!head) timeout1 = NULL;`
abbrev pub unless_empty : List TimeNode → Timeout → Timeout
unless_empty [] t = forever
unless_empty (node ∷ rest) t = t

-- The time is over: the ids that are asked for again.
pub timed_out : Loop → Timeval → List ℕ × Loop
timed_out l now =
    let (ids, timers) = update_time_list l.timers now in
    (
      ids,
      record {
        timers = timers;
        timeout =
            unless_empty timers.nodes
              (dropped_from (elapsed l.timers now) l.timers.nodes l.timeout);
      },
    )

-- `&head->delta_time`
abbrev pub of_head : List TimeNode → Timeout
of_head [] = forever
of_head (node ∷ rest) = of_node node.id

abbrev pub time_in : List TimeNode → ℕ → Option Timeval
time_in [] id = none
time_in (node ∷ rest) id = if node.id == id then some node.delta_time else time_in rest id

abbrev pub cancelled : List TimeNode → ℕ → Timeout → Timeout
cancelled nodes id forever = forever
cancelled nodes id (of_gone t) = of_gone t
cancelled nodes id (of_node k) =
    if k == id then repointed (of_node k) (time_in nodes id) else of_node k

-- The timeout after a request, which left the timers `t`.
pub timeout_after : Loop → List ℕ → Timers → Timeout
timeout_after l bufin t =
    if str_eq (operation_of bufin) start_name
    then of_head t.nodes
    else if str_eq (operation_of bufin) cancel_name
    then cancelled l.timers.nodes (id_of bufin) l.timeout
    else l.timeout

-- What `select` reports, what it leaves in its timeout, and the clock. It fails for a timeout whose
-- microseconds are negative, and the process exits.
pub data Event : Type 0 where
  time_over : Timeval → Timeval → Event
  request_ready : List ℕ → Timeval → Timeval → Event
  select_failed : Event

-- The loop goes on, with the requests to resend that it wrote, or it ended.
pub data LoopStep : Type 0 where
  goes_on : List ℕ → Loop → LoopStep
  ends : LoopStep

abbrev pub requested : Loop → List ℕ → Option Timers → LoopStep
requested l bufin none = ends
requested l bufin (some t) = goes_on [] (record { timers = t; timeout = timeout_after l bufin t })

abbrev pub over : List ℕ × Loop → LoopStep
over (ids, l) = goes_on ids l

-- One round of the loop.
pub loop_round : (List ℕ → ℕ) → Loop → Event → LoopStep
loop_round micros_of l (time_over left now) = over (timed_out (select_left l left) now)
loop_round micros_of l (request_ready bufin left now) =
    requested (select_left l left) bufin
      (handle_request micros_of (select_left l left).timers bufin now)
loop_round micros_of l select_failed = ends

abbrev pub and_then : LoopStep → (Loop → LoopStep) → LoopStep
and_then ends rest = ends
and_then (goes_on ids l) rest = elim (rest l) [
  | ends ↦ ends
  | goes_on more l' ↦ goes_on (ids ++ more) l'
]

pub loop_rounds : (List ℕ → ℕ) → Loop → List Event → LoopStep
loop_rounds micros_of l [] = goes_on [] l
loop_rounds micros_of l (event ∷ events) =
    and_then (loop_round micros_of l event) (λ l'. loop_rounds micros_of l' events)
