-- ===== src/TimerLoop/Waking.antt =====
-- When the loop wakes up for its timers.
use osu_cse.Base.{ℕ, ◌≡◌, refl, sym, ap, ◌∙◌, true, false, ◌==◌, inl, inr, Bool-cases}
use osu_cse.Base.{List, [], ◌∷◌, ◌++◌, Option, none, some}
use mathlib.Core.Path.{subst}
use osu_cse.Timeval.{Timeval}
use osu_cse.Timer.{
  TimeNode, Timers, elapsed, expire, update_time_list, delete_timenode, find_timenode,
}
use osu_cse.Message.{
  str_eq, start_name, cancel_name, stop_name, operation_of, id_of, handle_request,
}
use osu_cse.TimerLoop.{
  Timeout, forever, of_node, of_gone, Loop, written, select_writes, select_left, left_behind,
}
use osu_cse.TimerLoop.{
  repointed, dropped_from, unless_empty, timed_out, of_head, time_in, cancelled, timeout_after,
}
use osu_cse.TimerLoop.{
  Event, time_over, request_ready, select_failed, LoopStep, goes_on, ends, requested, over,
  loop_round, and_then, loop_rounds,
}

-- If there is a timer, the loop does not wait for ever.
abbrev pub Wakes : List TimeNode → Timeout → Type 0
Wakes [] t = Unit
Wakes (node ∷ rest) forever = ⊥
Wakes (node ∷ rest) (of_node id) = Unit
Wakes (node ∷ rest) (of_gone t) = Unit

abbrev pub IsAwake : LoopStep → Type 0
IsAwake ends = Unit
IsAwake (goes_on ids l) = Wakes l.timers.nodes l.timeout

Wakes-of_node : (nodes : List TimeNode) (id : ℕ) → Wakes nodes (of_node id)
Wakes-of_node [] id = tt
Wakes-of_node (node ∷ rest) id = tt

Wakes-of_gone : (nodes : List TimeNode) (t : Timeval) → Wakes nodes (of_gone t)
Wakes-of_gone [] t = tt
Wakes-of_gone (node ∷ rest) t = tt

Wakes-repointed :
    (nodes : List TimeNode) (id : ℕ) (time : Option Timeval)
    → Wakes nodes (repointed (of_node id) time)
Wakes-repointed nodes id none = Wakes-of_node nodes id
Wakes-repointed nodes id (some t) = Wakes-of_gone nodes t

Wakes-of_head : (nodes : List TimeNode) → Wakes nodes (of_head nodes)
Wakes-of_head [] = tt
Wakes-of_head (node ∷ rest) = tt

-- Only an empty list goes with no timeout.
Wakes-forever : (nodes : List TimeNode) → Wakes nodes forever → nodes ≡ []
Wakes-forever [] h = refl
Wakes-forever (node ∷ rest) h = absurd h

select_writes-Wakes :
    (l : Loop) (t : Timeout) (left : Timeval)
    → l.timeout ≡ t
    → Wakes l.timers.nodes l.timeout
    → Wakes (select_writes l t left).timers.nodes (select_writes l t left).timeout
select_writes-Wakes l forever left e h = h
select_writes-Wakes l (of_node id) left e h =
    rw e (Wakes-of_node (written l.timers.nodes id left) id)
select_writes-Wakes l (of_gone old) left e h = Wakes-of_gone l.timers.nodes left

select_left-Wakes :
    (l : Loop) (left : Timeval)
    → Wakes l.timers.nodes l.timeout
    → Wakes (select_left l left).timers.nodes (select_left l left).timeout
unfolding select_left
select_left-Wakes l left h = select_writes-Wakes l l.timeout left refl h

update-nil :
    (now lasttime : Timeval)
    → (update_time_list (record { nodes = []; lasttime = lasttime }) now).1.nodes ≡ []
unfolding update_time_list expire
update-nil now lasttime = refl

timed_out-IsAwake :
    (l : Loop) (now : Timeval) → Wakes l.timers.nodes l.timeout → IsAwake (over (timed_out l now))
unfolding timed_out
timed_out-IsAwake l now h = go (update_time_list l.timers now).1.nodes l.timeout none_left h
  where
    none_left : Wakes l.timers.nodes forever → (update_time_list l.timers now).1.nodes ≡ []
    none_left h =
        ap
          (λ nodes.
            (update_time_list (record { nodes = nodes; lasttime = l.timers.lasttime }) now).1.nodes)
          (Wakes-forever l.timers.nodes h)
        ∙ update-nil now l.timers.lasttime

    still :
        (nodes : List TimeNode) (t : Timeout) → Wakes nodes t → Wakes nodes (unless_empty nodes t)
    still [] t h = tt
    still (node ∷ rest) t h = h

    go :
        (nodes : List TimeNode) (t : Timeout)
        → (Wakes l.timers.nodes forever → nodes ≡ [])
        → Wakes l.timers.nodes t
        → Wakes nodes (unless_empty nodes (dropped_from (elapsed l.timers now) l.timers.nodes t))
    go nodes forever same h = subst (λ n. Wakes n (unless_empty n forever)) (sym (same h)) tt
    go nodes (of_node id) same h =
        still nodes _
          (Wakes-repointed nodes id (left_behind (elapsed l.timers now) l.timers.nodes id))
    go nodes (of_gone t) same h = still nodes (of_gone t) (Wakes-of_gone nodes t)

cancelled-Wakes :
    (nodes : List TimeNode) (id : ℕ) (t : Timeout)
    → Wakes nodes t
    → Wakes (delete_timenode nodes id) (cancelled nodes id t)
unfolding delete_timenode find_timenode
cancelled-Wakes nodes id forever h =
    subst (λ n. Wakes (delete_timenode n id) forever) (sym (Wakes-forever nodes h)) tt
cancelled-Wakes nodes id (of_gone t) h = Wakes-of_gone (delete_timenode nodes id) t
cancelled-Wakes nodes id (of_node k) h = elim (Bool-cases (k == id)) [
  | inl same ↦ rw same (Wakes-repointed (delete_timenode nodes id) k (time_in nodes id))
  | inr other ↦ rw other (Wakes-of_node (delete_timenode nodes id) k)
]

-- The timeout after a request, by its operation.
module _ (l : Loop) (bufin : List ℕ) (t : Timers) where
  timeout-start :
      str_eq (operation_of bufin) start_name ≡ true → timeout_after l bufin t ≡ of_head t.nodes
  unfolding timeout_after
  timeout-start h = rw h

  module _ (no_start : str_eq (operation_of bufin) start_name ≡ false) where
    timeout-cancel :
        str_eq (operation_of bufin) cancel_name ≡ true
        → timeout_after l bufin t ≡ cancelled l.timers.nodes (id_of bufin) l.timeout
    unfolding timeout_after
    timeout-cancel h = rw (no_start, h)

    timeout-other :
        str_eq (operation_of bufin) cancel_name ≡ false → timeout_after l bufin t ≡ l.timeout
    unfolding timeout_after
    timeout-other h = rw (no_start, h)

requested-IsAwake :
    (micros_of : List ℕ → ℕ) (l : Loop) (bufin : List ℕ) (now : Timeval)
    → Wakes l.timers.nodes l.timeout
    → IsAwake (requested l bufin (handle_request micros_of l.timers bufin now))
unfolding handle_request
requested-IsAwake micros_of l bufin now h =
    elim (Bool-cases (str_eq (operation_of bufin) stop_name)) [
      | inl stop ↦ rw stop tt
      | inr no_stop ↦ elim (Bool-cases (str_eq (operation_of bufin) start_name)) [
        | inl start ↦
            rw (no_stop, start)
              (subst (Wakes _) (sym (timeout-start l bufin _ start)) (Wakes-of_head _))
        | inr no_start ↦ elim (Bool-cases (str_eq (operation_of bufin) cancel_name)) [
          | inl cancel ↦
              rw (no_stop, no_start, cancel)
                (subst (Wakes _) (sym (timeout-cancel l bufin _ no_start cancel))
                  (cancelled-Wakes l.timers.nodes (id_of bufin) l.timeout h))
          | inr no_cancel ↦
              rw (no_stop, no_start, no_cancel)
                (subst (Wakes _) (sym (timeout-other l bufin _ no_start no_cancel)) h)
        ]
      ]
    ]

loop_round-IsAwake :
    (micros_of : List ℕ → ℕ) (l : Loop) (event : Event)
    → Wakes l.timers.nodes l.timeout
    → IsAwake (loop_round micros_of l event)
unfolding loop_round
loop_round-IsAwake micros_of l (time_over left now) h =
    timed_out-IsAwake (select_left l left) now (select_left-Wakes l left h)
loop_round-IsAwake micros_of l (request_ready bufin left now) h =
    requested-IsAwake micros_of (select_left l left) bufin now (select_left-Wakes l left h)
loop_round-IsAwake micros_of l select_failed h = tt

and_then-IsAwake :
    (o : LoopStep) (rest : Loop → LoopStep)
    → IsAwake o
    → ((l : Loop) → Wakes l.timers.nodes l.timeout → IsAwake (rest l))
    → IsAwake (and_then o rest)
and_then-IsAwake ends rest h keep = tt
and_then-IsAwake (goes_on ids l) rest h keep = go (rest l) (keep l h)
  where
    go :
        (o : LoopStep)
        → IsAwake o
        → IsAwake (elim o [ ends ↦ ends | goes_on more l' ↦ goes_on (ids ++ more) l' ])
    go ends k = tt
    go (goes_on more l') k = k

-- Whatever requests come, whenever, and whatever `select` leaves in its timeout: the loop never waits
-- for ever while there is a timer.
pub loop_rounds-IsAwake :
    (micros_of : List ℕ → ℕ) (events : List Event) (l : Loop)
    → Wakes l.timers.nodes l.timeout
    → IsAwake (loop_rounds micros_of l events)
unfolding loop_rounds
loop_rounds-IsAwake micros_of [] l h = h
loop_rounds-IsAwake micros_of (event ∷ events) l h =
    and_then-IsAwake (loop_round micros_of l event) _ (loop_round-IsAwake micros_of l event h)
      (λ l' h'. loop_rounds-IsAwake micros_of events l' h')
