-- ===== src/Timer/Removal.antt =====
-- `delete_timenode` as the removal of one entry.
use osu_cse.Base.{ℕ, ◌≡◌, refl, sym, ap, ◌∙◌, List, [], ◌∷◌, arith, ◌==◌, if◌then◌else◌}
use osu_cse.Base.{false, inl, inr, Bool-cases}
use osu_cse.Base.Int.{ℤ, ◌+ℤ◌, int_laws}
use osu_cse.Timeval.{Timeval}
use osu_cse.Timeval.Laws.{micros, micros-timeval_add}
use osu_cse.Timer.{TimeNode, find_timenode, hand_on, remove_node, delete_timenode}
use osu_cse.Timer.Deadlines.{deadlines}

-- The entries without the first of that id.
abbrev pub without : ℕ → List (ℕ × ℤ) → List (ℕ × ℤ)
without id [] = []
without id ((i, due) ∷ rest) = if i == id then rest else (i, due) ∷ without id rest

deadlines-hand_on :
    (base : ℤ) (d : Timeval) (rest : List TimeNode)
    → deadlines base (hand_on d rest) ≡ deadlines (base +ℤ micros d) rest
unfolding hand_on
deadlines-hand_on base d [] = refl
deadlines-hand_on base d (node ∷ rest) =
    ap (λ t. (node.id, t) ∷ deadlines t rest)
      (ap (λ t. base +ℤ t) (micros-timeval_add node.delta_time d)
        ∙ sum (micros node.delta_time) (micros d))
  where
    sum : (a b : ℤ) → base +ℤ (a +ℤ b) ≡ base +ℤ b +ℤ a
    sum a b = omega int_laws

deadlines-remove_node :
    (base : ℤ) (l : List TimeNode) (id : ℕ)
    → deadlines base (remove_node l id) ≡ without id (deadlines base l)
unfolding remove_node
deadlines-remove_node base [] id = refl
deadlines-remove_node base (node ∷ rest) id = elim (Bool-cases (node.id == id)) [
  | inl same ↦ rw same (deadlines-hand_on base node.delta_time rest)
  | inr other ↦ rw other (
      ap (λ l. (node.id, base +ℤ micros node.delta_time) ∷ l)
        (deadlines-remove_node (base +ℤ micros node.delta_time) rest id))
]

without-absent :
    (base : ℤ) (l : List TimeNode) (id : ℕ)
    → find_timenode l id ≡ false
    → without id (deadlines base l) ≡ deadlines base l
unfolding find_timenode
without-absent base [] id h = refl
without-absent base (node ∷ rest) id h = elim (Bool-cases (node.id == id)) [
  | inl same ↦ ground arith
  | inr other ↦ rw other (
      ap (λ l. (node.id, base +ℤ micros node.delta_time) ∷ l)
        (without-absent (base +ℤ micros node.delta_time) rest id (rw other at h)))
]

-- Cancelling a timer takes the first entry of that id out, if there is one, and changes no other
-- due time.
pub deadlines-delete_timenode :
    (base : ℤ) (l : List TimeNode) (id : ℕ)
    → deadlines base (delete_timenode l id) ≡ without id (deadlines base l)
unfolding delete_timenode
deadlines-delete_timenode base l id = elim (Bool-cases (find_timenode l id)) [
  | inl found ↦ rw found (deadlines-remove_node base l id)
  | inr absent ↦ rw absent (sym (without-absent base l id absent))
]
