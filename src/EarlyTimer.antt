-- ===== src/EarlyTimer.antt =====
-- The timer list of proj1/timmer.c, from which that of tcpd.c was made, with its nodes in a heap: a
-- node is the address of a cell, and the two links of a cell are addresses too.
pub mod Links
pub mod Removal
pub mod Fuel
pub mod Ranks
pub mod Backs
pub mod Puts
pub mod Inserts
pub mod Rooted
pub mod Acyclic
mod Tests
use osu_cse.Base.{ℕ, zero, suc, ◌+◌, Bool, true, false, ◌==◌, if◌then◌else◌, ◌&&◌}
use osu_cse.Base.{List, [], ◌∷◌, ◌++◌, length, get_or, set, Option, none, some}
use osu_cse.Base.Int.{ℤ, pos, negsuc, ◌+ℤ◌, ◌-ℤ◌, ltb_ℤ}
use osu_cse.Timeval.{Timeval, million, from_micros, timeval_subtract, timeval_add}
use osu_cse.Timer.{is_zero}
use osu_cse.Message.{str_eq, stop_name, start_name, cancel_name, operation_of, id_of, interval_of}

pub record Cell : Type 0 where
  pub id : ℕ
  pub delta_time : Timeval
  pub forward : Option ℕ
  pub next : Option ℕ

abbrev pub Heap : Type 0
Heap = List Cell

abbrev pub nowhere : Cell
nowhere = record {
  id = 0;
  delta_time = record { tv_sec = pos 0; tv_usec = pos 0 };
  forward = none;
  next = none;
}

abbrev pub cell : Heap → ℕ → Cell
cell h a = get_or h a nowhere

abbrev pub set_delta : Heap → ℕ → Timeval → Heap
set_delta h a d = set h a (record (cell h a) { delta_time = d })

abbrev pub set_next : Heap → ℕ → Option ℕ → Heap
set_next h a p = set h a (record (cell h a) { next = p })

abbrev pub set_forward : Heap → ℕ → Option ℕ → Heap
set_forward h a p = set h a (record (cell h a) { forward = p })

-- A loop over the list ends after as many rounds as the heap has cells, if the list has no cycle.
-- `search` gives the node of that id; `find_timenode` asks if there is one.
pub search : ℕ → Heap → Option ℕ → ℕ → Option ℕ
search zero h p id = none
search (suc fuel) h none id = none
search (suc fuel) h (some a) id =
    let rest = search fuel h (cell h a).next id in if (cell h a).id == id then some a else rest

-- What `print_time_list` writes to a time before it prints it.
abbrev pub shown : Timeval → Timeval
shown t =
    if ltb_ℤ t.tv_usec (pos 0)
    then record { tv_sec = t.tv_sec -ℤ pos 1; tv_usec = t.tv_usec +ℤ pos million }
    else t

pub print_from : ℕ → Heap → Option ℕ → Heap
print_from zero h p = h
print_from (suc fuel) h none = h
print_from (suc fuel) h (some a) =
    print_from fuel (set_delta h a (shown (cell h a).delta_time)) (cell h a).next

abbrev pub print_time_list : Heap → Option ℕ → Heap
print_time_list h head = print_from (length h) h head

-- What a node that is deleted hands on to the next.
abbrev pub hand_on : Heap → Option ℕ → Timeval → Heap
hand_on h none dtime = h
hand_on h (some a) dtime = set_delta h a (timeval_add (cell h a).delta_time dtime)

-- A node behind the head: its `forward` is followed, and the next node keeps its own `forward`.
abbrev pub unlink_from : Heap → Option ℕ → ℕ → Option ℕ → Option (Heap × Option ℕ)
unlink_from h head a none = none
unlink_from h head a (some f) = some (
  print_time_list (hand_on (set_next h f (cell h a).next) (cell h a).next (cell h a).delta_time)
      head,
  head,
)

abbrev pub delete_found : Heap → Option ℕ → Option ℕ → Option (Heap × Option ℕ)
delete_found h head none = some (print_time_list h head, head)
delete_found h head (some a) = unlink_from h head a (cell h a).forward

-- `none` is a null pointer that is followed, as with an empty list.
unfoldable pub delete_timenode : Heap → Option ℕ → ℕ → Option (Heap × Option ℕ)
delete_timenode h none id = none
delete_timenode h (some a) id =
    if (cell h a).id == id
    then some (
      print_time_list (hand_on h (cell h a).next (cell h a).delta_time) (cell h a).next,
      (cell h a).next,
    )
    else delete_found h (some a) (search (length h) h (some a) id)

-- The end of the list: the new node goes behind this one.
abbrev pub put_behind : Heap → ℕ → ℕ → Heap
put_behind h new node = set_forward (set_next h node (some new)) new (some node)

-- The new node goes in front of this one, and the node's time is taken down by `dtime`.
abbrev pub put_before : Heap → ℕ → ℕ → Option ℕ → Timeval → Option Heap
put_before h new node none dtime = none
put_before h new node (some f) dtime =
    let linked =
      set_forward (set_next (set_forward (set_next h f (some new)) new (some f)) new (some node))
        node (some new) in
    some (set_delta linked node dtime)

-- The loop for the insert point, whose three tests compare the same times: a comparison writes the
-- node's time, and `taken` is that comparison. `none` is a null `forward` that is followed.
pub insert_at : ℕ → Heap → ℕ → ℕ → Option Heap
insert_at zero h new node = some h
insert_at (suc fuel) h new node =
    let test = timeval_subtract (cell h new).delta_time (cell h node).delta_time in
    let before = timeval_subtract test.y (cell h new).delta_time in
    let later = timeval_subtract (cell h new).delta_time test.y in
    elim test.negative [
      | true ↦ put_before (set_delta h new before.y) new node (cell h node).forward before.result
      | false ↦ elim (cell h node).next [
        | none ↦ some (put_behind (set_delta (set_delta h node later.y) new later.result) new node)
        | some after ↦
            insert_at fuel (set_delta (set_delta h node later.y) new later.result) new after
      ]
    ]

abbrev pub and_head : ℕ → Option Heap → Option (Heap × ℕ)
and_head head none = none
and_head head (some h) = some (h, head)

-- The head comes second if the new node waits less.
pub insert : Heap → ℕ → ℕ → Option (Heap × ℕ)
insert h new head =
    let test = timeval_subtract (cell h new).delta_time (cell h head).delta_time in
    let before = timeval_subtract test.y (cell h new).delta_time in
    let rest = insert_at (length h) (set_delta h head test.y) new head in
    if test.negative
    then some (
      set_delta (set_forward (set_next (set_delta h new before.y) new (some head)) head (some new))
          head before.result,
      new,
    )
    else and_head head rest

-- `head` and `lasttime`, with the heap.
pub record Timers : Type 0 where
  pub heap : Heap
  pub head : Option ℕ
  pub lasttime : Timeval

abbrev pub found : Option ℕ → Bool
found none = false
found (some a) = true

abbrev pub inserted : Timers → Option (Heap × ℕ) → Option Timers
inserted t none = none
inserted t (some (h, head)) =
    some (record t { heap = print_time_list h (some head); head = some head })

-- `malloc` gives a new cell. The first node is not printed, and only it reads the clock.
abbrev pub add_new : Timers → Heap → Option ℕ → Timeval → Option Timers
add_new t h none now = some (record { heap = h; head = some (length t.heap); lasttime = now })
add_new t h (some head) now = inserted t (insert h (length t.heap) head)

unfoldable pub add_timenode : Timers → ℕ → ℕ → Timeval → Option Timers
add_timenode t id d now =
    if found (search (length t.heap) t.heap t.head id)
    then some t
    else add_new t
        (t.heap
          ++ (record { id = id; delta_time = from_micros d; forward = none; next = none } ∷ []))
        t.head now

-- The loop of `update_time_list`, which only drops the nodes that are due, and the step after it.
unfoldable pub expire : ℕ → Heap → Option ℕ → Timeval → Heap × Option ℕ
expire zero h p dtime = (h, p)
expire (suc fuel) h none dtime = (h, none)
expire (suc fuel) h (some a) dtime =
    let test = timeval_subtract dtime (cell h a).delta_time in
    let passed = timeval_subtract dtime test.y in
    let stays = timeval_subtract test.y dtime in
    let rest = expire fuel (set_delta h a passed.y) (cell h a).next passed.result in
    if test.negative then (set_delta h a stays.result, some a) else rest

abbrev pub elapsed : Timeval → Timeval → Timeval
elapsed lasttime now =
    if is_zero lasttime.tv_sec && is_zero lasttime.tv_usec
    then lasttime
    else (timeval_subtract now lasttime).result

unfoldable pub update_time_list : Timers → Timeval → Timers
update_time_list t now =
    let (h, head) = expire (length t.heap) t.heap t.head (elapsed t.lasttime now) in
    record { heap = h; head = head; lasttime = now }

-- What a round of the loop does: it goes on, it ends the loop, or it follows a null pointer.
pub data Round : Type 0 where
  goes_on : Timers → Round
  ends : Round
  crashes : Round

abbrev pub added : Option Timers → Round
added none = crashes
added (some t) = goes_on t

abbrev pub deleted : Timers → Option (Heap × Option ℕ) → Round
deleted t none = crashes
deleted t (some (h, head)) = goes_on (record t { heap = h; head = head })

-- A request is read after the list was brought up to date; `micros_of` reads the bytes of a double.
unfoldable pub handle_request : (List ℕ → ℕ) → Timers → List ℕ → Timeval → Round
handle_request micros_of t bufin now =
    if str_eq (operation_of bufin) stop_name
    then ends
    else if str_eq (operation_of bufin) start_name
    then added (add_timenode t (id_of bufin) (micros_of (interval_of bufin)) now)
    else if str_eq (operation_of bufin) cancel_name
    then deleted t (delete_timenode t.heap t.head (id_of bufin))
    else goes_on t

-- One round of the timer's loop, where `select` reports a request, or else that the time is over.
unfoldable pub round : (List ℕ → ℕ) → Timers → Option (List ℕ) → Timeval → Timeval → Round
round micros_of t none now later = ends
round micros_of t (some bufin) now later =
    handle_request micros_of (update_time_list t now) bufin later

-- A request, if there is one, with the times before and after it is read.
pub record Arrival : Type 0 where
  pub request : Option (List ℕ)
  pub now : Timeval
  pub later : Timeval

abbrev pub continue_with : Round → (Timers → Round) → Round
continue_with (goes_on t) rest = rest t
continue_with ends rest = ends
continue_with crashes rest = crashes

-- The timer's loop, from its first round on.
pub rounds : (List ℕ → ℕ) → Timers → List Arrival → Round
rounds micros_of t [] = goes_on t
rounds micros_of t (e ∷ events) =
    continue_with (round micros_of t e.request e.now e.later) (λ t'. rounds micros_of t' events)

-- The list before the first round, if `head` is null then.
abbrev pub no_timers : Timers
no_timers = record { heap = []; head = none; lasttime = record { tv_sec = pos 0; tv_usec = pos 0 } }
