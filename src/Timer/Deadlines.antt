-- ===== src/Timer/Deadlines.antt =====
-- What a delta list stands for: the ids in order, each with the time at which it is due.
use osu_cse.Base.{ℕ, List, [], ◌∷◌, arith}
use osu_cse.Base.Int.{ℤ, pos, ◌+ℤ◌, ◌≤ℤ◌, int_laws}
use osu_cse.Timeval.Laws.{micros}
use osu_cse.Timer.{TimeNode}

-- `base` is the time to which the first node's wait is added.
abbrev pub deadlines : ℤ → List TimeNode → List (ℕ × ℤ)
deadlines base [] = []
deadlines base (node ∷ rest) =
    (node.id, base +ℤ micros node.delta_time) ∷ deadlines (base +ℤ micros node.delta_time) rest

abbrev pub AllFrom : ℤ → List (ℕ × ℤ) → Type 0
AllFrom t [] = Unit
AllFrom t ((id, due) ∷ rest) = (t ≤ℤ due) × AllFrom t rest

abbrev pub AllUpTo : ℤ → List (ℕ × ℤ) → Type 0
AllUpTo t [] = Unit
AllUpTo t ((id, due) ∷ rest) = (due ≤ℤ t) × AllUpTo t rest

-- No node is due before the one in front of it.
abbrev pub IsOrdered : List TimeNode → Type 0
IsOrdered [] = Unit
IsOrdered (node ∷ rest) = (pos 0 ≤ℤ micros node.delta_time) × IsOrdered rest

pub AllFrom_mono : (s t : ℤ) (l : List (ℕ × ℤ)) → s ≤ℤ t → AllFrom t l → AllFrom s l
AllFrom_mono s t [] h a = tt
AllFrom_mono s t ((id, due) ∷ rest) h a = (omega (arith, a.0), AllFrom_mono s t rest h a.1)

pub deadlines-AllFrom :
    (base : ℤ) (l : List TimeNode) → IsOrdered l → AllFrom base (deadlines base l)
deadlines-AllFrom base [] h = tt
deadlines-AllFrom base (node ∷ rest) h = (
  omega (int_laws, h.0),
  AllFrom_mono base (base +ℤ micros node.delta_time) _ (omega (int_laws, h.0))
      (deadlines-AllFrom (base +ℤ micros node.delta_time) rest h.1),
)
