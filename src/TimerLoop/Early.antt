-- ===== src/TimerLoop/Early.antt =====
-- What comes of a `select` that leaves what is left of its timeout in it, which is no time once the
-- time is over: the node at the front then waits for no time.
use osu_cse.Base.{ℕ, ◌≡◌, refl, sym, ap, ◌∙◌, arith, true, false, ◌==◌, inl, inr, Bool-cases}
use osu_cse.Base.{List, ◌∷◌}
use osu_cse.Base.Int.{ℤ, pos, ◌+ℤ◌, ◌<ℤ◌, ◌*ℤ◌, int_laws}
use mathlib.Core.Path.{subst}
use osu_cse.Timeval.{Timeval}
use osu_cse.Timeval.Laws.{micros}
use osu_cse.Timer.{TimeNode, elapsed, expire, update_time_list}
use osu_cse.Timer.Expiry.{test, tested, passed, did_pass, expire-pass}
use osu_cse.TimerLoop.{of_node, Loop, written, select_left, timed_out}

abbrev pub no_time : Timeval
no_time = record { tv_sec = pos 0; tv_usec = pos 0 }

micros-no_time : micros no_time ≡ pos 0
unfolding micros ◌+ℤ◌ ◌*ℤ◌
micros-no_time = refl

plus_none : (r : ℤ) → r ≡ r +ℤ pos 0
plus_none r = omega int_laws

-- A node that waits for less than the time that passed is dropped.
drops :
    (e : Timeval) (node : TimeNode) (rest : List TimeNode)
    → micros node.delta_time <ℤ micros e
    → (test e node rest).negative ≡ false
drops e node rest less = elim (Bool-cases (test e node rest).negative) [
  | inl behind ↦ absurd (omega (int_laws, less, (tested e node rest).if_negative behind))
  | inr ahead ↦ ahead
]

expire-two :
    (e : Timeval) (a b : TimeNode) (rest : List TimeNode)
    → micros a.delta_time ≡ pos 0
    → pos 0 <ℤ micros e
    → micros b.delta_time <ℤ micros e
    → (more : List ℕ) × ((expire e (a ∷ b ∷ rest)).0 ≡ a.id ∷ b.id ∷ more)
expire-two e a b rest no_wait some_time less = (
  (expire (passed e' b rest).result rest).0,
  ap (λ x. x.0) (expire-pass e a (b ∷ rest) (drops e a (b ∷ rest) first))
      ∙ ap (λ x. a.id ∷ x.0) (expire-pass e' b rest (drops e' b rest second)),
)
  where
    e' : Timeval
    e' = (passed e a (b ∷ rest)).result

    first : micros a.delta_time <ℤ micros e
    first = subst (λ m. m <ℤ micros e) (sym no_wait) some_time

    all_left : micros e' ≡ micros e
    all_left =
        whole (micros e') (micros (test e a (b ∷ rest)).y) (micros e)
          (did_pass e a (b ∷ rest)).exact ((tested e a (b ∷ rest)).kept ∙ no_wait)
      where
        whole : (r n e : ℤ) → r +ℤ n ≡ e → n ≡ pos 0 → r ≡ e
        whole r n e h z = plus_none r ∙ ap (λ k. r +ℤ k) (sym z) ∙ h

    second : micros b.delta_time <ℤ micros e'
    second = subst (λ m. micros b.delta_time <ℤ m) (sym all_left) less

-- The time of the timer at the front is over, and `select` left no time in it. Then the next timer is
-- asked for again too if its wait behind the first is less than the time that passed since the clock
-- was last read.
pub timed_out_early :
    (l : Loop) (a b : TimeNode) (rest : List TimeNode) (now : Timeval)
    → l.timers.nodes ≡ a ∷ b ∷ rest
    → l.timeout ≡ of_node a.id
    → pos 0 <ℤ micros (elapsed l.timers now)
    → micros b.delta_time <ℤ micros (elapsed l.timers now)
    → (more : List ℕ) × ((timed_out (select_left l no_time) now).0 ≡ a.id ∷ b.id ∷ more)
unfolding timed_out select_left update_time_list elapsed written
timed_out_early l a b rest now nodes pointer some_time less =
    let (more, e) =
      expire-two (elapsed l.timers now) (record a { delta_time = no_time }) b rest micros-no_time
        some_time less in
    (more, rw (pointer, nodes, same a.id) e)
  where
    same : (n : ℕ) → (n == n) ≡ true
    same n = ground arith
