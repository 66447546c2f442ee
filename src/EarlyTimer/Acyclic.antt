-- ===== src/EarlyTimer/Acyclic.antt =====
-- The loop of the earlier timer: its rounds, the list after them, and the requests that follow a null
-- pointer.
use osu_cse.Base.{
  ℕ, zero, suc, ◌+◌, ◌≤◌, ◌≡◌, refl, ap, arith, inl, inr, Bool-cases, true, false, ◌↔◌,
}
use osu_cse.Base.{List, [], ◌∷◌, length, Option, none, some}
use mathlib.Core.Path.{subst}
use osu_cse.Timeval.{Timeval}
use osu_cse.Message.{str_eq, operation_of, id_of, interval_of, stop_name, start_name, cancel_name}
use osu_cse.EarlyTimer.{
  Heap, cell, delete_timenode, Timers, update_time_list, Round, goes_on, ends, crashes, added,
  deleted, handle_request, round, Arrival, continue_with, rounds, no_timers,
}
use osu_cse.EarlyTimer.Links.{IsChain}
use osu_cse.EarlyTimer.Ranks.{value, IsRanked, IsIn}
use osu_cse.EarlyTimer.Puts.{Option-cases}
use osu_cse.EarlyTimer.Rooted.{
  IsRooted, IsLeft, IsTimers, IsAdded, pointer-IsIn, delete_timenode-IsLeft,
  update_time_list-IsTimers, add_timenode-IsAdded,
}

-- A request to cancel a timer meets the empty list.
pub record IsLost (t : Timers) (bufin : List ℕ) : Type 0 where
  pub not_stop : str_eq (operation_of bufin) stop_name ≡ false
  pub not_start : str_eq (operation_of bufin) start_name ≡ false
  pub cancel : str_eq (operation_of bufin) cancel_name ≡ true
  pub empty : t.head ≡ none

-- What a request leads to; `IsLost` is the reason if it is a crash.
abbrev IsAnswer : Timers → List ℕ → Round → Type 0
IsAnswer t bufin (goes_on t') = IsTimers t'
IsAnswer t bufin ends = Unit
IsAnswer t bufin crashes = IsLost t bufin

added-IsAnswer :
    (t : Timers) (bufin : List ℕ) (o : Option Timers) → IsAdded o → IsAnswer t bufin (added o)
added-IsAnswer t bufin none v = absurd v
added-IsAnswer t bufin (some t') v = v

deleted-IsAnswer :
    (t : Timers) (bufin : List ℕ) (o : Option (Heap × Option ℕ))
    → IsLeft o
    → IsAnswer t bufin (deleted t o)
deleted-IsAnswer t bufin none v = absurd v
deleted-IsAnswer t bufin (some (h, p)) v = v

canceled-IsAnswer :
    (t : Timers) (bufin : List ℕ) (p : Option ℕ) (id : ℕ)
    → (p ≡ none → IsLost t bufin)
    → IsRooted t.heap p
    → IsAnswer t bufin (deleted t (delete_timenode t.heap p id))
canceled-IsAnswer t bufin none id lost v = unfold delete_timenode in lost refl
canceled-IsAnswer t bufin (some a) id lost v =
    deleted-IsAnswer t bufin _ (delete_timenode-IsLeft t.heap a id v)

handle_request-IsAnswer :
    (micros_of : List ℕ → ℕ) (t : Timers) (bufin : List ℕ) (now : Timeval)
    → IsTimers t
    → IsAnswer t bufin (handle_request micros_of t bufin now)
unfolding handle_request
handle_request-IsAnswer micros_of t bufin now v =
    elim (Bool-cases (str_eq (operation_of bufin) stop_name)) [
      | inl stops ↦ rw stops tt
      | inr other ↦ elim (Bool-cases (str_eq (operation_of bufin) start_name)) [
        | inl starts ↦
            rw (other, starts)
              (added-IsAnswer t bufin _
                (add_timenode-IsAdded t (id_of bufin) (micros_of (interval_of bufin)) now v))
        | inr other' ↦ elim (Bool-cases (str_eq (operation_of bufin) cancel_name)) [
          | inl cancels ↦
              rw (other, other', cancels)
                (canceled-IsAnswer t bufin t.head (id_of bufin)
                  (λ e. record {
                    not_stop = other;
                    not_start = other';
                    cancel = cancels;
                    empty = e;
                  })
                  v)
          | inr other'' ↦ rw (other, other', other'') v
        ]
      ]
    ]

-- The same for a round.
abbrev IsKept : Round → Type 0
IsKept (goes_on t) = IsTimers t
IsKept ends = Unit
IsKept crashes = Unit

answer-IsKept : (t : Timers) (bufin : List ℕ) (o : Round) → IsAnswer t bufin o → IsKept o
answer-IsKept t bufin (goes_on t') v = v
answer-IsKept t bufin ends v = tt
answer-IsKept t bufin crashes v = tt

round-IsKept :
    (micros_of : List ℕ → ℕ) (t : Timers) (e : Arrival)
    → IsTimers t
    → IsKept (round micros_of t e.request e.now e.later)
unfolding round
round-IsKept micros_of t e v = elim (Option-cases e.request) [
  | inl none_there ↦ rw none_there tt
  | inr (bufin, there) ↦ rw there (
      answer-IsKept (update_time_list t e.now) bufin _ (
        handle_request-IsAnswer micros_of (update_time_list t e.now) bufin e.later
          (update_time_list-IsTimers t e.now v)))
]

continue_with-IsKept :
    (o : Round) (rest : Timers → Round)
    → IsKept o
    → ((t : Timers) → IsTimers t → IsKept (rest t))
    → IsKept (continue_with o rest)
continue_with-IsKept (goes_on t) rest v k = k t v
continue_with-IsKept ends rest v k = tt
continue_with-IsKept crashes rest v k = tt

rounds-IsKept :
    (micros_of : List ℕ → ℕ) (events : List Arrival) (t : Timers)
    → IsTimers t
    → IsKept (rounds micros_of t events)
unfolding rounds
rounds-IsKept micros_of [] t v = v
rounds-IsKept micros_of (e ∷ events) t v =
    continue_with-IsKept (round micros_of t e.request e.now e.later) _
      (round-IsKept micros_of t e v) (λ t' v'. rounds-IsKept micros_of events t' v')

-- The nodes of the list in order.
abbrev pub IsList : Heap → Option ℕ → Type 0
IsList h p = (nodes : List ℕ) × IsChain h p nodes × (length nodes ≤ length h)

abbrev pub IsListAfter : Round → Type 0
IsListAfter (goes_on t) = IsList t.heap t.head
IsListAfter ends = Unit
IsListAfter crashes = Unit

walk :
    (fuel : ℕ) (r : ℕ → ℕ) (h : Heap) (p : Option ℕ)
    → IsRanked r (length h) h
    → IsIn (length h) p
    → ((a : ℕ) → p ≡ some a → length h ≤ fuel + r a)
    → (nodes : List ℕ) × IsChain h p nodes × (length nodes ≤ fuel)
walk fuel r h none v inside enough = ([], refl, omega arith)
walk zero r h (some a) v inside enough = absurd (omega (arith, enough a refl, v.bound a inside))
walk (suc fuel) r h (some a) v inside enough =
    let (nodes, chain, small) =
      walk fuel r h (cell h a).next v (pointer-IsIn r h a v)
        (λ b e. omega (arith, enough a refl, (v.next a b e).2)) in
    (a ∷ nodes, (refl, (inside, chain)), omega (arith, small))

no_timers-IsTimers : IsTimers no_timers
no_timers-IsTimers = record {
  rank = λ a. 0;
  ranked = record {
    bound = λ a old. absurd (omega arith);
    next = λ a b e. absurd (omega (arith, ap (value (suc b)) e));
    forward = λ a b e. absurd (omega (arith, ap (value (suc b)) e));
  };
  inside = tt;
  backed = record { back = λ a b e. absurd (omega (arith, ap (value (suc b)) e)) };
}

-- Whatever is requested and however the clock goes, as long as the loop goes on from the empty list
-- the links `next` lead from the head to the end of the list, over no more nodes than were made.
pub rounds-IsListAfter :
    (micros_of : List ℕ → ℕ) (events : List Arrival)
    → IsListAfter (rounds micros_of no_timers events)
rounds-IsListAfter micros_of events =
    go (rounds micros_of no_timers events)
      (rounds-IsKept micros_of events no_timers no_timers-IsTimers)
  where
    go : (o : Round) → IsKept o → IsListAfter o
    go (goes_on t) v =
        walk (length t.heap) v.rank t.heap t.head v.ranked v.inside (λ a e. omega arith)
    go ends v = tt
    go crashes v = tt

-- The same request again, as it is computed.
lost-crashes :
    (micros_of : List ℕ → ℕ) (t : Timers) (bufin : List ℕ) (now : Timeval)
    → IsLost t bufin
    → handle_request micros_of t bufin now ≡ crashes
unfolding handle_request delete_timenode
lost-crashes micros_of t bufin now l = rw (l.not_stop, l.not_start, l.cancel, l.empty)

crash-IsLost :
    (t : Timers) (bufin : List ℕ) (o : Round) → IsAnswer t bufin o → o ≡ crashes → IsLost t bufin
crash-IsLost t bufin (goes_on t') v e = absurd (subst HasGoneOn e tt)
  where
    HasGoneOn : Round → Type 0
    HasGoneOn (goes_on t) = Unit
    HasGoneOn ends = ⊥
    HasGoneOn crashes = ⊥
crash-IsLost t bufin ends v e = absurd (subst HasEnded e tt)
  where
    HasEnded : Round → Type 0
    HasEnded (goes_on t) = ⊥
    HasEnded ends = Unit
    HasEnded crashes = ⊥
crash-IsLost t bufin crashes v e = v

-- After any rounds from the empty list that all went on, a request makes the timer follow a null
-- pointer exactly if it cancels a timer and the list, brought up to date, is empty.
pub crashes-IsLost :
    (micros_of : List ℕ → ℕ) (events : List Arrival) (t : Timers) (bufin : List ℕ)
    (now later : Timeval)
    → rounds micros_of no_timers events ≡ goes_on t
    → (round micros_of t (some bufin) now later ≡ crashes) ↔ IsLost (update_time_list t now) bufin
unfolding round
crashes-IsLost micros_of events t bufin now later e = (
  crash-IsLost (update_time_list t now) bufin _ (
      handle_request-IsAnswer micros_of (update_time_list t now) bufin later (
        update_time_list-IsTimers t now
          (subst IsKept e (rounds-IsKept micros_of events no_timers no_timers-IsTimers)))),
  lost-crashes micros_of (update_time_list t now) bufin later,
)
