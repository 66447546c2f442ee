-- ===== src/Timer/Insertion.antt =====
-- `add_timenode` as an insertion by due time.
use osu_cse.Base.{ℕ, ◌≡◌, refl, sym, ap, ap₂, ◌∙◌, List, [], ◌∷◌, ◌++◌, arith}
use osu_cse.Base.{true, false, inl, inr, Bool-cases}
use osu_cse.Base.Int.{ℤ, pos, pos_part, neg_part, ◌+ℤ◌, ◌≤ℤ◌, int_laws}
use osu_cse.Timeval.{Timeval, Difference, timeval_subtract}
use osu_cse.Timeval.Laws.{micros, micros-from_micros, IsDifference, timeval_subtract-IsDifference}
use osu_cse.Timer.{TimeNode, Timers, find_timenode, from_micros, insert_node, add_timenode}
use osu_cse.Timer.Deadlines.{
  deadlines, AllFrom, AllUpTo, IsOrdered, AllFrom_mono, deadlines-AllFrom,
}

-- `after` is `before` with one entry put in where it is due, behind all that are due no later.
pub record IsInserted (id : ℕ) (due : ℤ) (before after : List (ℕ × ℤ)) : Type 0 where
  pub front : List (ℕ × ℤ)
  pub back : List (ℕ × ℤ)
  pub was : before ≡ front ++ back
  pub is : after ≡ front ++ ((id, due) ∷ back)
  pub not_later : AllUpTo due front
  pub not_sooner : AllFrom due back

module _ (new node : TimeNode) (rest : List TimeNode) where
  abbrev test : Difference
  test = timeval_subtract new.delta_time node.delta_time

  tested : IsDifference new.delta_time node.delta_time test
  tested = timeval_subtract-IsDifference new.delta_time node.delta_time

  abbrev before : Difference
  before = timeval_subtract test.y new.delta_time

  did_before : IsDifference test.y new.delta_time before
  did_before = timeval_subtract-IsDifference test.y new.delta_time

  abbrev later : Difference
  later = timeval_subtract new.delta_time test.y

  did_later : IsDifference new.delta_time test.y later
  did_later = timeval_subtract-IsDifference new.delta_time test.y

  abbrev moved_on : TimeNode
  moved_on = record new { delta_time = later.result }

  insert-before :
      test.negative ≡ true
      → insert_node new (node ∷ rest)
        ≡ record new { delta_time = before.y } ∷ record node { delta_time = before.result } ∷ rest
  unfolding insert_node
  insert-before h = rw (h, insert_node)

  insert-later :
      test.negative ≡ false
      → insert_node new (node ∷ rest)
        ≡ record node { delta_time = later.y } ∷ insert_node moved_on rest
  unfolding insert_node
  insert-later h = rw (h, insert_node)

  -- The waits after an insertion before the node, and the wait that goes on past it.
  node_due :
      (base : ℤ) → base +ℤ micros before.y +ℤ micros before.result ≡ base +ℤ micros node.delta_time
  node_due base =
      ap (λ t. base +ℤ t +ℤ micros before.result) did_before.kept
      ∙ sum (micros new.delta_time) (micros before.result) (micros node.delta_time)
          (did_before.exact ∙ tested.kept)
    where
      sum : (n r m : ℤ) → r +ℤ n ≡ m → base +ℤ n +ℤ r ≡ base +ℤ m
      sum n r m e = omega (int_laws, ap pos_part e, ap neg_part e)

  new_due :
      (base : ℤ)
      → base +ℤ micros node.delta_time +ℤ micros later.result ≡ base +ℤ micros new.delta_time
  new_due base =
      sum (micros node.delta_time) (micros later.result) (micros new.delta_time)
        (ap (λ t. micros later.result +ℤ t) (sym tested.kept) ∙ did_later.exact)
    where
      sum : (n r m : ℤ) → r +ℤ n ≡ m → base +ℤ n +ℤ r ≡ base +ℤ m
      sum n r m e = omega (int_laws, ap pos_part e, ap neg_part e)

  kept_due : (base : ℤ) → base +ℤ micros later.y ≡ base +ℤ micros node.delta_time
  kept_due base = ap (λ t. base +ℤ t) (did_later.kept ∙ tested.kept)

  insertion_before :
      (base : ℤ)
      → test.negative ≡ true
      → IsOrdered (node ∷ rest)
      → IsInserted new.id
          (base +ℤ micros new.delta_time)
          (deadlines base (node ∷ rest))
          (deadlines base (insert_node new (node ∷ rest)))
  insertion_before base neg h = record {
    front = [];
    back = deadlines base (node ∷ rest);
    was = refl;
    is =
        ap (deadlines base) (insert-before neg)
        ∙ ap₂ (λ a b. (new.id, a) ∷ (node.id, b) ∷ deadlines b rest)
            (ap (λ t. base +ℤ t) did_before.kept) (node_due base);
    not_later = tt;
    not_sooner = (
      omega (int_laws, sooner),
      AllFrom_mono (base +ℤ micros new.delta_time) (base +ℤ micros node.delta_time) _
          (omega (int_laws, sooner)) (deadlines-AllFrom (base +ℤ micros node.delta_time) rest h.1),
    );
  }
    where
      sooner : micros new.delta_time ≤ℤ micros node.delta_time
      sooner = tested.if_negative neg

  insertion_behind :
      (base : ℤ)
      → test.negative ≡ false
      → IsInserted new.id
          (base +ℤ micros node.delta_time +ℤ micros later.result)
          (deadlines (base +ℤ micros node.delta_time) rest)
          (deadlines (base +ℤ micros node.delta_time) (insert_node moved_on rest))
      → IsInserted new.id
          (base +ℤ micros new.delta_time)
          (deadlines base (node ∷ rest))
          (deadlines base (insert_node new (node ∷ rest)))
  insertion_behind base non ih = record {
    front = (node.id, base +ℤ micros node.delta_time) ∷ ih.front;
    back = ih.back;
    was = ap (λ l. (node.id, base +ℤ micros node.delta_time) ∷ l) ih.was;
    is =
        ap (deadlines base) (insert-later non)
        ∙ ap (λ t. (node.id, t) ∷ deadlines t (insert_node moved_on rest)) (kept_due base)
        ∙ ap (λ l. (node.id, base +ℤ micros node.delta_time) ∷ l) ih.is
        ∙ ap (λ t. (node.id, base +ℤ micros node.delta_time) ∷ ih.front ++ ((new.id, t) ∷ ih.back))
            (new_due base);
    not_later = (omega (int_laws, tested.if_not non), rw (new_due base) at ih.not_later);
    not_sooner = rw (new_due base) at ih.not_sooner;
  }

insert-nil : (new : TimeNode) → insert_node new [] ≡ new ∷ []
unfolding insert_node
insert-nil new = refl

pub insert_node-IsInserted :
    (l : List TimeNode) (new : TimeNode) (base : ℤ)
    → IsOrdered l
    → IsInserted new.id
        (base +ℤ micros new.delta_time)
        (deadlines base l)
        (deadlines base (insert_node new l))
insert_node-IsInserted [] new base h = record {
  front = [];
  back = [];
  was = refl;
  is = ap (deadlines base) (insert-nil new);
  not_later = tt;
  not_sooner = tt;
}
insert_node-IsInserted (node ∷ rest) new base h = elim (Bool-cases (test new node rest).negative) [
  | inl neg ↦ insertion_before new node rest base neg h
  | inr non ↦
      insertion_behind new node rest base non
        (insert_node-IsInserted rest (moved_on new node rest) (base +ℤ micros node.delta_time) h.1)
]

module _ (new node : TimeNode) (rest : List TimeNode) where
  keeps_order_before :
      (test new node rest).negative ≡ true
      → pos 0 ≤ℤ micros new.delta_time
      → IsOrdered (node ∷ rest)
      → IsOrdered (insert_node new (node ∷ rest))
  keeps_order_before neg h o = rw (insert-before new node rest neg) (
    rw (← (did_before new node rest).kept) at h,
    (
      wait (micros new.delta_time) (micros (before new node rest).result) (micros node.delta_time)
          ((did_before new node rest).exact ∙ (tested new node rest).kept)
          ((tested new node rest).if_negative neg),
      o.1,
    ),
  )
    where
      wait : (n r m : ℤ) → r +ℤ n ≡ m → n ≤ℤ m → pos 0 ≤ℤ r
      wait n r m e le = omega (int_laws, ap pos_part e, ap neg_part e)

  moved_on_waits :
      (test new node rest).negative ≡ false → pos 0 ≤ℤ micros (later new node rest).result
  moved_on_waits non =
      wait (micros node.delta_time) (micros (later new node rest).result) (micros new.delta_time)
        (ap (λ t. micros (later new node rest).result +ℤ t) (sym (tested new node rest).kept)
          ∙ (did_later new node rest).exact)
        ((tested new node rest).if_not non)
    where
      wait : (n r m : ℤ) → r +ℤ n ≡ m → n ≤ℤ m → pos 0 ≤ℤ r
      wait n r m e le = omega (int_laws, ap pos_part e, ap neg_part e)

  keeps_order_behind :
      (test new node rest).negative ≡ false
      → IsOrdered (node ∷ rest)
      → IsOrdered (insert_node (moved_on new node rest) rest)
      → IsOrdered (insert_node new (node ∷ rest))
  keeps_order_behind non o ih =
      rw (insert-later new node rest non)
        (rw (← ((did_later new node rest).kept ∙ (tested new node rest).kept)) at (o.0), ih)

insert_node-IsOrdered :
    (l : List TimeNode) (new : TimeNode)
    → pos 0 ≤ℤ micros new.delta_time
    → IsOrdered l
    → IsOrdered (insert_node new l)
insert_node-IsOrdered [] new h o = rw (insert-nil new) (h, tt)
insert_node-IsOrdered (node ∷ rest) new h o = elim (Bool-cases (test new node rest).negative) [
  | inl neg ↦ keeps_order_before new node rest neg h o
  | inr non ↦
      keeps_order_behind new node rest non o
        (insert_node-IsOrdered rest (moved_on new node rest) (moved_on_waits new node rest non) o.1)
]

-- The list after a start, seen from the time that the deltas count from.
abbrev pub start_of : Timers → ℕ → ℕ → Timeval → ℤ
start_of t id d now = micros (add_timenode t id d now).lasttime

abbrev timer_node : ℕ → ℕ → TimeNode
timer_node id d = record { id = id; delta_time = from_micros d }

add-nil :
    (last : Timeval) (id d : ℕ) (now : Timeval)
    → add_timenode (record { nodes = []; lasttime = last }) id d now
      ≡ record { nodes = timer_node id d ∷ []; lasttime = now }
unfolding add_timenode find_timenode
add-nil last id d now = refl

add-cons :
    (node : TimeNode) (rest : List TimeNode) (last : Timeval) (id d : ℕ) (now : Timeval)
    → find_timenode (node ∷ rest) id ≡ false
    → add_timenode (record { nodes = node ∷ rest; lasttime = last }) id d now
      ≡ record { nodes = insert_node (timer_node id d) (node ∷ rest); lasttime = last }
unfolding add_timenode
add-cons node rest last id d now fresh = rw fresh

-- The wait of a new timer, in its place after `base`.
timer_due : (base : ℤ) (d : ℕ) → base +ℤ micros (from_micros d) ≡ base +ℤ pos d
timer_due base d = ap (λ t. base +ℤ t) (micros-from_micros d)

-- On a list in order, starting a timer of `d` microseconds under an id that is not in the list
-- puts one entry in, due `d` after the time that the deltas count from, behind all that are due no
-- later and before all that are due no sooner; no other due time changes and the list stays in order.
pub add_timenode-IsInserted :
    (t : Timers) (id d : ℕ) (now : Timeval)
    → find_timenode t.nodes id ≡ false
    → IsOrdered t.nodes
    → IsInserted id
        (start_of t id d now +ℤ pos d)
        (deadlines (start_of t id d now) t.nodes)
        (deadlines (start_of t id d now) (add_timenode t id d now).nodes)
      × IsOrdered (add_timenode t id d now).nodes
add_timenode-IsInserted t id d now = go t.nodes t.lasttime
  where
    go :
        (nodes : List TimeNode) (last : Timeval)
        → let t : Timers = record { nodes = nodes; lasttime = last } in
          find_timenode nodes id ≡ false
          → IsOrdered nodes
          → IsInserted id
              (start_of t id d now +ℤ pos d)
              (deadlines (start_of t id d now) nodes)
              (deadlines (start_of t id d now) (add_timenode t id d now).nodes)
            × IsOrdered (add_timenode t id d now).nodes
    go [] last fresh o =
        rw (add-nil last id d now, ← timer_due (micros now) d)
          (
            record {
              front = [];
              back = [];
              was = refl;
              is = refl;
              not_later = tt;
              not_sooner = tt;
            },
            (
              omega (arith, ap pos_part (micros-from_micros d), ap neg_part (micros-from_micros d)),
              tt,
            ),
          )
    go (node ∷ rest) last fresh o =
        rw (add-cons node rest last id d now fresh, ← timer_due (micros last) d)
          (
            insert_node-IsInserted (node ∷ rest) (timer_node id d) (micros last) o,
            insert_node-IsOrdered (node ∷ rest) (timer_node id d)
                (omega
                  (arith, ap pos_part (micros-from_micros d), ap neg_part (micros-from_micros d)))
                o,
          )
