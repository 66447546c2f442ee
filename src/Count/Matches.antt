-- ===== src/Count/Matches.antt =====
-- What `compare` counts.
use osu_cse.Base.{ℕ, suc, ◌≡◌, ◌≢◌, ◌↔◌, refl, ap, ap₂, arith}
use osu_cse.Base.{true, false, ◌==◌, inl, inr, Bool-cases}
use osu_cse.Base.{List, [], ◌∷◌, length, take, drop, get_or}
use osu_cse.Count.{agree, compare}

-- `n` of the places in a text are such that the target stands there.
pub data IsCount (target : List ℕ) : List ℕ → ℕ → Type 0 where
  at_end : IsCount target [] 0
  here :
      {x n : ℕ} {str : List ℕ}
      → take (length target) (x ∷ str) ≡ target
      → IsCount target str n
      → IsCount target (x ∷ str) (suc n)
  elsewhere :
      {x n : ℕ} {str : List ℕ}
      → take (length target) (x ∷ str) ≢ target
      → IsCount target str n
      → IsCount target (x ∷ str) n

agree-cons :
    (x t : ℕ) (str target : List ℕ)
    → agree (x ∷ str) (t ∷ target) ≡ suc (length target)
    → (x ≡ t) × (agree str target ≡ length target)
unfolding agree
agree-cons x t str target e = ground arith

cons-agree :
    (x t : ℕ) (str target : List ℕ)
    → x ≡ t
    → agree str target ≡ length target
    → agree (x ∷ str) (t ∷ target) ≡ suc (length target)
unfolding agree
cons-agree x t str target h e = ground arith

agree-length :
    (str target : List ℕ) → (agree str target ≡ length target) ↔ (take (length target) str ≡ target)
unfolding agree
agree-length [] [] = (λ e. refl, λ e. refl)
agree-length [] (t ∷ target) =
    (λ e. absurd (omega (arith, e)), λ e. absurd (omega (arith, ap length e)))
agree-length (x ∷ str) [] = (λ e. refl, λ e. refl)
agree-length (x ∷ str) (t ∷ target) = (
  λ e.
      ap₂ (λ a l. a ∷ l) (agree-cons x t str target e).0
        ((agree-length str target).0 (agree-cons x t str target e).1),
  λ e.
      cons-agree x t str target (ap (λ l. get_or l 0 0) e)
        ((agree-length str target).1 (ap (drop 1) e)),
)

compare-here :
    (x : ℕ) (str target : List ℕ)
    → agree (x ∷ str) target ≡ length target
    → compare (x ∷ str) target ≡ suc (compare str target)
unfolding compare
compare-here x str target h = ground arith

compare-elsewhere :
    (x : ℕ) (str target : List ℕ)
    → agree (x ∷ str) target ≢ length target
    → compare (x ∷ str) target ≡ compare str target
unfolding compare
compare-elsewhere x str target h = ground arith

-- `compare` counts the places in the text at which the whole target stands, overlapping ones too.
pub compare-IsCount : (str target : List ℕ) → IsCount target str (compare str target)
compare-IsCount [] target = unfold compare in at_end
compare-IsCount (x ∷ str) target = elim (Bool-cases (agree (x ∷ str) target == length target)) [
  | inl whole ↦
      rw (compare-here x str target (same whole))
        (here ((agree-length (x ∷ str) target).0 (same whole)) (compare-IsCount str target))
  | inr part ↦ rw (compare-elsewhere x str target (other part)) (
      elsewhere (λ e. other part ((agree-length (x ∷ str) target).1 e))
        (compare-IsCount str target))
]
  where
    same : (agree (x ∷ str) target == length target) ≡ true → agree (x ∷ str) target ≡ length target
    same h = ground arith

    other :
        (agree (x ∷ str) target == length target) ≡ false → agree (x ∷ str) target ≢ length target
    other h = ground arith
