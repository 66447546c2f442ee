-- ===== src/Timer/Expiry.antt =====
-- `update_time_list` as the expiry of all that is due.
use osu_cse.Base.{ℕ, ◌≡◌, refl, sym, ap, ◌∙◌, List, [], ◌∷◌, ◌++◌, map}
use osu_cse.Base.{true, false, ◌&&◌, inl, inr, Bool-cases}
use osu_cse.Base.Int.{ℤ, pos_part, neg_part, ◌+ℤ◌, ◌≤ℤ◌, int_laws}
use osu_cse.Timeval.{Timeval, Difference, timeval_subtract}
use osu_cse.Timeval.Laws.{micros, IsDifference, timeval_subtract-IsDifference}
use osu_cse.Timer.{TimeNode, Timers, expire, elapsed, is_zero, update_time_list}
use osu_cse.Timer.Deadlines.{
  deadlines, AllFrom, AllUpTo, IsOrdered, AllFrom_mono, deadlines-AllFrom,
}

-- `ids` are those of the entries at the front of `before`, all due by `now`; `after` are the others,
-- with the due times that they had, and none of them is due before `now`.
pub record IsExpired (now : ℤ) (ids : List ℕ) (before after : List (ℕ × ℤ)) : Type 0 where
  pub front : List (ℕ × ℤ)
  pub was : before ≡ front ++ after
  pub sent : ids ≡ map (λ entry. entry.0) front
  pub due : AllUpTo now front
  pub waiting : AllFrom now after

module _ (dtime : Timeval) (node : TimeNode) (rest : List TimeNode) where
  abbrev pub test : Difference
  test = timeval_subtract dtime node.delta_time

  pub tested : IsDifference dtime node.delta_time test
  tested = timeval_subtract-IsDifference dtime node.delta_time

  abbrev pub passed : Difference
  passed = timeval_subtract dtime test.y

  pub did_pass : IsDifference dtime test.y passed
  did_pass = timeval_subtract-IsDifference dtime test.y

  abbrev pub stays : Difference
  stays = timeval_subtract test.y dtime

  pub did_stay : IsDifference test.y dtime stays
  did_stay = timeval_subtract-IsDifference test.y dtime

  pub expire-stop :
      test.negative ≡ true
      → expire dtime (node ∷ rest) ≡ ([], record node { delta_time = stays.result } ∷ rest)
  unfolding expire
  expire-stop h = rw (h, expire)

  pub expire-pass :
      test.negative ≡ false
      → expire dtime (node ∷ rest)
        ≡ (node.id ∷ (expire passed.result rest).0, (expire passed.result rest).1)
  unfolding expire
  expire-pass h = rw (h, expire)

  -- The wait that stays, and the time that goes on past the node.
  stay_due :
      (base : ℤ) → base +ℤ micros dtime +ℤ micros stays.result ≡ base +ℤ micros node.delta_time
  stay_due base =
      sum (micros dtime) (micros stays.result) (micros node.delta_time)
        (did_stay.exact ∙ tested.kept)
    where
      sum : (n r m : ℤ) → r +ℤ n ≡ m → base +ℤ n +ℤ r ≡ base +ℤ m
      sum n r m e = omega (int_laws, ap pos_part e, ap neg_part e)

  pass_due :
      (base : ℤ) → base +ℤ micros node.delta_time +ℤ micros passed.result ≡ base +ℤ micros dtime
  pass_due base =
      sum (micros node.delta_time) (micros passed.result) (micros dtime)
        (ap (λ t. micros passed.result +ℤ t) (sym tested.kept) ∙ did_pass.exact)
    where
      sum : (n r m : ℤ) → r +ℤ n ≡ m → base +ℤ n +ℤ r ≡ base +ℤ m
      sum n r m e = omega (int_laws, ap pos_part e, ap neg_part e)

  stop_here :
      (base : ℤ)
      → test.negative ≡ true
      → IsOrdered (node ∷ rest)
      → IsExpired
          (base +ℤ micros dtime)
          []
          (deadlines base (node ∷ rest))
          (deadlines (base +ℤ micros dtime) (record node { delta_time = stays.result } ∷ rest))
  stop_here base neg o = record {
    front = [];
    was = ap (λ t. (node.id, t) ∷ deadlines t rest) (sym (stay_due base));
    sent = refl;
    due = tt;
    waiting = rw (stay_due base) (
      omega (int_laws, sooner),
      AllFrom_mono (base +ℤ micros dtime) (base +ℤ micros node.delta_time) _
          (omega (int_laws, sooner)) (deadlines-AllFrom (base +ℤ micros node.delta_time) rest o.1),
    );
  }
    where
      sooner : micros dtime ≤ℤ micros node.delta_time
      sooner = tested.if_negative neg

  pass_on :
      (base : ℤ) (ids : List ℕ) (nodes : List TimeNode)
      → test.negative ≡ false
      → IsExpired
          (base +ℤ micros node.delta_time +ℤ micros passed.result)
          ids
          (deadlines (base +ℤ micros node.delta_time) rest)
          (deadlines (base +ℤ micros node.delta_time +ℤ micros passed.result) nodes)
      → IsExpired
          (base +ℤ micros dtime)
          (node.id ∷ ids)
          (deadlines base (node ∷ rest))
          (deadlines (base +ℤ micros dtime) nodes)
  pass_on base ids nodes non ih = record {
    front = (node.id, base +ℤ micros node.delta_time) ∷ ih.front;
    was =
        ap (λ l. (node.id, base +ℤ micros node.delta_time) ∷ l)
          (ih.was ∙ ap (λ t. ih.front ++ deadlines t nodes) (pass_due base));
    sent = ap (λ l. node.id ∷ l) ih.sent;
    due = (omega (int_laws, tested.if_not non), rw (pass_due base) at ih.due);
    waiting = rw (pass_due base) at ih.waiting;
  }

expire-nil : (dtime : Timeval) → expire dtime [] ≡ ([], [])
unfolding expire
expire-nil dtime = refl

expire-IsExpired :
    (l : List TimeNode) (dtime : Timeval) (base : ℤ)
    → IsOrdered l
    → IsExpired
        (base +ℤ micros dtime)
        (expire dtime l).0
        (deadlines base l)
        (deadlines (base +ℤ micros dtime) (expire dtime l).1)
expire-IsExpired [] dtime base o =
    rw (expire-nil dtime) (record { front = []; was = refl; sent = refl; due = tt; waiting = tt })
expire-IsExpired (node ∷ rest) dtime base o = elim (Bool-cases (test dtime node rest).negative) [
  | inl neg ↦ rw (expire-stop dtime node rest neg) (stop_here dtime node rest base neg o)
  | inr non ↦ rw (expire-pass dtime node rest non) (
      pass_on dtime node rest base _ _ non (
        expire-IsExpired rest (passed dtime node rest).result (base +ℤ micros node.delta_time) o.1))
]

-- With a clock that was read before, the time that passed is the time from that reading.
elapsed-exact :
    (t : Timers) (now : Timeval)
    → (is_zero t.lasttime.tv_sec && is_zero t.lasttime.tv_usec) ≡ false
    → micros t.lasttime +ℤ micros (elapsed t now) ≡ micros now
unfolding elapsed
elapsed-exact t now h = rw h (
    swap (micros t.lasttime) (micros (timeval_subtract now t.lasttime).result)
    ∙ (timeval_subtract-IsDifference now t.lasttime).exact)
  where
    swap : (a b : ℤ) → a +ℤ b ≡ b +ℤ a
    swap a b = omega int_laws

-- On a list in order and with a clock that was read before, `update_time_list` asks, in order,
-- for a resend of ids at the front, all of them due by `now`; what stays in the list keeps its due
-- time, now counted from `now`, and is due at `now` or later.
pub update_time_list-IsExpired :
    (t : Timers) (now : Timeval)
    → IsOrdered t.nodes
    → (is_zero t.lasttime.tv_sec && is_zero t.lasttime.tv_usec) ≡ false
    → IsExpired
        (micros now)
        (update_time_list t now).0
        (deadlines (micros t.lasttime) t.nodes)
        (deadlines (micros (update_time_list t now).1.lasttime) (update_time_list t now).1.nodes)
unfolding update_time_list
update_time_list-IsExpired t now o h =
    rw (elapsed-exact t now h) at (expire-IsExpired t.nodes (elapsed t now) (micros t.lasttime) o)
