-- ===== src/TimerLoop/Shorter.antt =====
-- What `select` does to the list when it writes the time that is left into its timeout.
use osu_cse.Base.{ℕ, ◌≡◌, sym, ap, arith, true, ◌==◌, inl, inr, Bool-cases}
use osu_cse.Base.{List, [], ◌∷◌}
use osu_cse.Base.Int.{ℤ, pos, ◌+ℤ◌, ◌≤ℤ◌, int_laws}
use mathlib.Core.Path.{subst}
use mathlib.Core.List.{Memᴰ}
use mathlib.Core.List.Memᴰ.{head, tail, not-nil, cases_cons}
use osu_cse.Timeval.{Timeval}
use osu_cse.Timeval.Laws.{micros}
use osu_cse.Timer.{TimeNode}
use osu_cse.Timer.Deadlines.{deadlines, IsOrdered}
use osu_cse.Timer.Pending.{HasEntry, IsPending}
use osu_cse.TimerLoop.{
  Timeout, forever, of_node, of_gone, Loop, written, select_writes, select_left,
}

-- The node of that id waits for `left` at least.
abbrev pub WaitsFor : List TimeNode → ℕ → Timeval → Type 0
WaitsFor [] id left = Unit
WaitsFor (node ∷ rest) id left =
    (node.id ≡ id → micros left ≤ℤ micros node.delta_time) × WaitsFor rest id left

-- What is left of a timeout is not negative, and not more than there was.
abbrev pub IsLeft : List TimeNode → Timeout → Timeval → Type 0
IsLeft nodes forever left = Unit
IsLeft nodes (of_gone t) left = Unit
IsLeft nodes (of_node id) left = (pos 0 ≤ℤ micros left) × WaitsFor nodes id left

add_le : (a b t : ℤ) → a ≤ℤ b → a +ℤ t ≤ℤ b +ℤ t
add_le a b t h = omega (int_laws, h)

moved :
    (id : ℕ) (d x y : ℤ) (i : ℕ) (l : List (ℕ × ℤ))
    → ◌≡◌ {A = ℕ × ℤ} (id, d) (i, x)
    → y ≤ℤ x
    → HasEntry id d ((i, y) ∷ l)
moved id d x y i l e less = (
  y,
  head (ap (λ (z : ℕ × ℤ). (z.0, y)) e),
  subst (λ z. y ≤ℤ z) (sym (ap (λ (z : ℕ × ℤ). z.1) e)) less,
)

later_entry :
    (id : ℕ) (d : ℤ) (x : ℕ × ℤ) (l : List (ℕ × ℤ)) → HasEntry id d l → HasEntry id d (x ∷ l)
later_entry id d x l h = (h.0, tail h.1, h.2)

-- All is due sooner if the time that the waits count from is sooner.
sooner-HasEntry :
    (id : ℕ) (d base base' : ℤ) (nodes : List TimeNode)
    → base' ≤ℤ base
    → Memᴰ (id, d) (deadlines base nodes)
    → HasEntry id d (deadlines base' nodes)
sooner-HasEntry id d base base' [] less m = absurd (not-nil m)
sooner-HasEntry id d base base' (node ∷ rest) less m =
    let less' = add_le base' base (micros node.delta_time) less in
    elim (cases_cons m) [
      | inl e ↦ moved id d _ _ node.id _ e less'
      | inr later ↦ later_entry id d _ _ (
          sooner-HasEntry id d (base +ℤ micros node.delta_time) (base' +ℤ micros node.delta_time)
            rest less' later)
    ]

written-HasEntry :
    (id : ℕ) (d base base' : ℤ) (nodes : List TimeNode) (k : ℕ) (left : Timeval)
    → base' ≤ℤ base
    → WaitsFor nodes k left
    → Memᴰ (id, d) (deadlines base nodes)
    → HasEntry id d (deadlines base' (written nodes k left))
unfolding written
written-HasEntry id d base base' [] k left less short m = absurd (not-nil m)
written-HasEntry id d base base' (node ∷ rest) k left less short m =
    elim (Bool-cases (node.id == k)) [
      | inl same ↦
          let less' =
            both base' base (micros left) (micros node.delta_time) less (short.0 (is_same same)) in
          rw same (elim (cases_cons m) [
            | inl e ↦ moved id d _ _ node.id _ e less'
            | inr later ↦ later_entry id d _ _ (sooner-HasEntry id d _ _ rest less' later)
          ])
      | inr other ↦
          let less' = add_le base' base (micros node.delta_time) less in
          rw other (elim (cases_cons m) [
            | inl e ↦ moved id d _ _ node.id _ e less'
            | inr later ↦ later_entry id d _ _ (
                written-HasEntry id d (base +ℤ micros node.delta_time)
                  (base' +ℤ micros node.delta_time) rest k left less' short.1 later)
          ])
    ]
  where
    is_same : (node.id == k) ≡ true → node.id ≡ k
    is_same e = ground arith

    both : (a b s t : ℤ) → a ≤ℤ b → s ≤ℤ t → a +ℤ s ≤ℤ b +ℤ t
    both a b s t h k = omega (int_laws, h, k)

written-IsOrdered :
    (nodes : List TimeNode) (k : ℕ) (left : Timeval)
    → pos 0 ≤ℤ micros left
    → IsOrdered nodes
    → IsOrdered (written nodes k left)
unfolding written
written-IsOrdered [] k left h o = tt
written-IsOrdered (node ∷ rest) k left h o = elim (Bool-cases (node.id == k)) [
  | inl same ↦ rw same (h, o.1)
  | inr other ↦ rw other (o.0, written-IsOrdered rest k left h o.1)
]

select_writes-IsPending :
    (id : ℕ) (due : ℤ) (l : Loop) (t : Timeout) (left : Timeval)
    → IsLeft l.timers.nodes t left
    → IsPending id due l.timers
    → IsPending id due (select_writes l t left).timers
select_writes-IsPending id due l forever left less h = h
select_writes-IsPending id due l (of_gone old) left less h = h
select_writes-IsPending id due l (of_node k) left less h =
    let base = micros l.timers.lasttime in
    let e =
      written-HasEntry id h.entry.0 base base l.timers.nodes k left (same base) less.1 h.entry.1 in
    record {
      entry = (e.0, e.1, up_to e.0 h.entry.0 due e.2 h.entry.2);
      ordered = written-IsOrdered l.timers.nodes k left less.0 h.ordered;
      read = h.read;
    }
  where
    same : (a : ℤ) → a ≤ℤ a
    same a = omega int_laws

    up_to : (a b c : ℤ) → a ≤ℤ b → b ≤ℤ c → a ≤ℤ c
    up_to a b c h k = omega (int_laws, h, k)

-- A timer is not due later for what `select` leaves.
pub select_left-IsPending :
    (id : ℕ) (due : ℤ) (l : Loop) (left : Timeval)
    → IsLeft l.timers.nodes l.timeout left
    → IsPending id due l.timers
    → IsPending id due (select_left l left).timers
unfolding select_left
select_left-IsPending id due l left less h = select_writes-IsPending id due l l.timeout left less h
