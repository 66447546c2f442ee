-- ===== src/Timeval/Laws.antt =====
-- What the arithmetic of `struct timeval` does to the times that the structures stand for.
use osu_cse.Base.{ℕ, ◌+◌, ◌^◌, ◌<◌, ◌≡◌, sym, ap, ◌∙◌, true, false, inl, inr, ◌↔◌}
use osu_cse.Base.{arith, Bool-cases}
use osu_cse.Base.Int.{ℤ, pos, pos_part, neg_part, ◌+ℤ◌, ◌-ℤ◌, ◌*ℤ◌, ◌≤ℤ◌, ◌<ℤ◌, ltb_ℤ}
use osu_cse.Base.Int.{int_laws, parts_apart}
use osu_cse.Timeval.{
  Timeval, million, whole_seconds, borrow, repay, carry, timeval_subtract, timeval_add,
}
use osu_cse.Timeval.{Difference, calculate_rtt, to_u32, from_micros}

-- The time in microseconds.
unfoldable pub micros : Timeval → ℤ
micros t = t.tv_sec *ℤ million +ℤ t.tv_usec

-- The microseconds of `x` exceed those of `y` by a second at most.
abbrev IsCarried : Timeval → Timeval → Type 0
IsCarried x y = (y.tv_usec ≤ℤ x.tv_usec) × (x.tv_usec -ℤ y.tv_usec ≤ℤ pos million)

pub tests_ℤ : (a b : ℤ) → ltb_ℤ a b ≡ true → a <ℤ b
tests_ℤ a b h = ground arith

pub tests_ℤ_false : (a b : ℤ) → ltb_ℤ a b ≡ false → b ≤ℤ a
tests_ℤ_false a b h = ground arith

borrow_regroup :
    (s u : ℤ) (k : ℕ) → (s +ℤ pos k) *ℤ million +ℤ (u -ℤ pos k *ℤ million) ≡ s *ℤ million +ℤ u
borrow_regroup s u k = omega int_laws

repay_regroup :
    (s u : ℤ) (k : ℕ) → (s -ℤ pos k) *ℤ million +ℤ (u +ℤ pos k *ℤ million) ≡ s *ℤ million +ℤ u
repay_regroup s u k = omega int_laws

micros-borrow : (x y : Timeval) → micros (borrow x y) ≡ micros y
unfolding micros borrow
micros-borrow x y = elim (Bool-cases (ltb_ℤ x.tv_usec y.tv_usec)) [
  | inl h ↦ rw h (borrow_regroup y.tv_sec y.tv_usec _)
  | inr h ↦ rw h
]

micros-repay : (x y : Timeval) → micros (repay x y) ≡ micros y
unfolding micros repay
micros-repay x y = elim (Bool-cases (ltb_ℤ (pos million) (x.tv_usec -ℤ y.tv_usec))) [
  | inl h ↦ rw h (repay_regroup y.tv_sec y.tv_usec _)
  | inr h ↦ rw h
]

-- The time that `y` stands for is kept.
pub micros-carry : (x y : Timeval) → micros (carry x y) ≡ micros y
unfolding carry
micros-carry x y = micros-repay x (borrow x y) ∙ micros-borrow x y

borrowed : (x y : Timeval) → (borrow x y).tv_usec ≤ℤ x.tv_usec
unfolding borrow
borrowed x y = elim (Bool-cases (ltb_ℤ x.tv_usec y.tv_usec)) [
  | inl h ↦ rw h (below x.tv_usec y.tv_usec (tests_ℤ x.tv_usec y.tv_usec h))
  | inr h ↦ rw h (tests_ℤ_false x.tv_usec y.tv_usec h)
]
  where
    below : (u v : ℤ) → u <ℤ v → v -ℤ pos (whole_seconds (v -ℤ u) + 1) *ℤ million ≤ℤ u
    below u v h = omega (int_laws, parts_apart (v -ℤ u))

repaid : (x y : Timeval) → y.tv_usec ≤ℤ x.tv_usec → IsCarried x (repay x y)
unfolding repay
repaid x y le = elim (Bool-cases (ltb_ℤ (pos million) (x.tv_usec -ℤ y.tv_usec))) [
  | inl h ↦ rw h (within x.tv_usec y.tv_usec le)
  | inr h ↦ rw h (le, tests_ℤ_false (pos million) (x.tv_usec -ℤ y.tv_usec) h)
]
  where
    within :
        (u v : ℤ)
        → v ≤ℤ u
        → (v +ℤ pos (whole_seconds (u -ℤ v)) *ℤ million ≤ℤ u)
          × (u -ℤ (v +ℤ pos (whole_seconds (u -ℤ v)) *ℤ million) ≤ℤ pos million)
    within u v h = (omega (int_laws, parts_apart (u -ℤ v)), omega (int_laws, parts_apart (u -ℤ v)))

carried : (x y : Timeval) → IsCarried x (carry x y)
unfolding carry
carried x y = repaid x (borrow x y) (borrowed x y)

borrow_done : (x y : Timeval) → y.tv_usec ≤ℤ x.tv_usec → borrow x y ≡ y
unfolding borrow
borrow_done x y h = ground arith

repay_done : (x y : Timeval) → x.tv_usec -ℤ y.tv_usec ≤ℤ pos million → repay x y ≡ y
unfolding repay
repay_done x y h = ground arith

-- On carried times nothing is written, so the comparisons that `add_timenode` repeats agree.
carry_done : (x y : Timeval) → IsCarried x y → carry x y ≡ y
unfolding carry
carry_done x y h = ap (repay x) (borrow_done x y h.0) ∙ repay_done x y h.1

pub carry-carry : (x y : Timeval) → carry x (carry x y) ≡ carry x y
carry-carry x y = carry_done x (carry x y) (carried x y)

-- What `timeval_subtract` does, as times: `y` stands for the time it stood for, the result for
-- `x - y`, with microseconds from 0 to a million, and the flag tells the order of `x` and `y`.
pub record IsDifference (x y : Timeval) (d : Difference) : Type 0 where
  pub kept : micros d.y ≡ micros y
  pub exact : micros d.result +ℤ micros y ≡ micros x
  pub from_zero : pos 0 ≤ℤ d.result.tv_usec
  pub to_million : d.result.tv_usec ≤ℤ pos million
  pub if_negative : d.negative ≡ true → micros x ≤ℤ micros y
  pub if_not : d.negative ≡ false → micros y ≤ℤ micros x

-- The same about the carried `y` alone.
difference_regroup :
    (x y : Timeval)
    → (x.tv_sec -ℤ y.tv_sec) *ℤ million +ℤ (x.tv_usec -ℤ y.tv_usec) +ℤ micros y ≡ micros x
unfolding micros
difference_regroup x y = go x.tv_sec x.tv_usec y.tv_sec y.tv_usec
  where
    go :
        (s u s' u' : ℤ)
        → (s -ℤ s') *ℤ million +ℤ (u -ℤ u') +ℤ (s' *ℤ million +ℤ u') ≡ s *ℤ million +ℤ u
    go s u s' u' = omega int_laws

before_carried : (x y : Timeval) → IsCarried x y → x.tv_sec <ℤ y.tv_sec → micros x ≤ℤ micros y
unfolding micros
before_carried x y c h = go x.tv_sec x.tv_usec y.tv_sec y.tv_usec c.1 h
  where
    go :
        (s u s' u' : ℤ)
        → u -ℤ u' ≤ℤ pos million
        → s <ℤ s'
        → s *ℤ million +ℤ u ≤ℤ s' *ℤ million +ℤ u'
    go s u s' u' c h = omega int_laws

after_carried : (x y : Timeval) → IsCarried x y → y.tv_sec ≤ℤ x.tv_sec → micros y ≤ℤ micros x
unfolding micros
after_carried x y c h = go x.tv_sec x.tv_usec y.tv_sec y.tv_usec c.0 h
  where
    go : (s u s' u' : ℤ) → u' ≤ℤ u → s' ≤ℤ s → s' *ℤ million +ℤ u' ≤ℤ s *ℤ million +ℤ u
    go s u s' u' c h = omega int_laws

-- After every call `y` stands for the same time as before, the result stands for `x - y` with its
-- microseconds from 0 to a million, the flag is set only if `x` is not after `y`, and is not set
-- only if `y` is not after `x`.
pub timeval_subtract-IsDifference : (x y : Timeval) → IsDifference x y (timeval_subtract x y)
unfolding timeval_subtract micros
timeval_subtract-IsDifference x y = record {
  kept = micros-carry x y;
  exact =
      ap (λ t. micros (timeval_subtract x y).result +ℤ t) (sym (micros-carry x y))
      ∙ difference_regroup x (carry x y);
  from_zero = omega (int_laws, carried x y);
  to_million = (carried x y).1;
  if_negative = λ h.
      rw (micros-carry x y) at
        (before_carried x (carry x y) (carried x y) (tests_ℤ x.tv_sec (carry x y).tv_sec h));
  if_not = λ h.
      rw (micros-carry x y) at
        (after_carried x (carry x y) (carried x y) (tests_ℤ_false x.tv_sec (carry x y).tv_sec h));
}

abbrev pub IsNormal : Timeval → Type 0
IsNormal t = (pos 0 ≤ℤ t.tv_usec) × (t.tv_usec <ℤ pos million)

borrow_strict :
    (x y : Timeval) → IsNormal x → IsNormal y → x.tv_usec -ℤ (borrow x y).tv_usec <ℤ pos million
unfolding borrow
borrow_strict x y hx hy = elim (Bool-cases (ltb_ℤ x.tv_usec y.tv_usec)) [
  | inl h ↦ rw h (below x.tv_usec y.tv_usec hx hy (tests_ℤ x.tv_usec y.tv_usec h))
  | inr h ↦ rw h (omega (int_laws, hx, hy))
]
  where
    below :
        (u v : ℤ)
        → (pos 0 ≤ℤ u) × (u <ℤ pos million)
        → (pos 0 ≤ℤ v) × (v <ℤ pos million)
        → u <ℤ v
        → u -ℤ (v -ℤ pos (whole_seconds (v -ℤ u) + 1) *ℤ million) <ℤ pos million
    below u v hu hv h = omega (int_laws, parts_apart (v -ℤ u))

carry_strict :
    (x y : Timeval) → IsNormal x → IsNormal y → x.tv_usec -ℤ (carry x y).tv_usec <ℤ pos million
unfolding carry
carry_strict x y hx hy =
    let strict = borrow_strict x y hx hy in
    rw (repay_done x (borrow x y) (omega (arith, strict))) strict

strictly_before :
    (x y : Timeval)
    → x.tv_usec -ℤ y.tv_usec <ℤ pos million
    → x.tv_sec <ℤ y.tv_sec
    → micros x <ℤ micros y
unfolding micros
strictly_before x y c h = go x.tv_sec x.tv_usec y.tv_sec y.tv_usec c h
  where
    go :
        (s u s' u' : ℤ)
        → u -ℤ u' <ℤ pos million
        → s <ℤ s'
        → s *ℤ million +ℤ u <ℤ s' *ℤ million +ℤ u'
    go s u s' u' c h = omega int_laws

-- With microseconds below a million in both, the flag is set exactly if `x` is before `y`.
pub timeval_subtract-negative :
    (x y : Timeval)
    → IsNormal x
    → IsNormal y
    → ((timeval_subtract x y).negative ≡ true) ↔ (micros x <ℤ micros y)
unfolding timeval_subtract
timeval_subtract-negative x y hx hy = (
  λ h. rw (micros-carry x y) at (
      strictly_before x (carry x y) (carry_strict x y hx hy)
        (tests_ℤ x.tv_sec (carry x y).tv_sec h)),
  λ lt. elim (Bool-cases (ltb_ℤ x.tv_sec (carry x y).tv_sec)) [
    | inl h ↦ h
    | inr h ↦ absurd (omega (arith, lt, (timeval_subtract-IsDifference x y).if_not h))
  ],
)

-- The sum of two times.
pub micros-timeval_add : (x y : Timeval) → micros (timeval_add x y) ≡ micros x +ℤ micros y
unfolding micros timeval_add
micros-timeval_add x y = go x.tv_sec x.tv_usec y.tv_sec y.tv_usec
  where
    go :
        (s u s' u' : ℤ)
        → (s +ℤ s') *ℤ million +ℤ (u +ℤ u') ≡ s *ℤ million +ℤ u +ℤ (s' *ℤ million +ℤ u')
    go s u s' u' = omega int_laws

-- `calculate_rtt` is the time from `y` to `x` modulo 2 ^ 32, on either branch.
rtt_branches :
    (s u s' u' : ℤ)
    → u +ℤ pos million -ℤ u' +ℤ (s -ℤ pos 1 -ℤ s') *ℤ million
      ≡ s *ℤ million +ℤ u -ℤ (s' *ℤ million +ℤ u')
rtt_branches s u s' u' = omega int_laws

rtt_plain :
    (s u s' u' : ℤ) → u -ℤ u' +ℤ (s -ℤ s') *ℤ million ≡ s *ℤ million +ℤ u -ℤ (s' *ℤ million +ℤ u')
rtt_plain s u s' u' = omega int_laws

calculate_rtt-wraps : (x y : Timeval) → calculate_rtt x y ≡ to_u32 (micros x -ℤ micros y)
unfolding calculate_rtt micros
calculate_rtt-wraps x y = elim (Bool-cases (ltb_ℤ x.tv_usec y.tv_usec)) [
  | inl h ↦ rw h (ap to_u32 (rtt_branches x.tv_sec x.tv_usec y.tv_sec y.tv_usec))
  | inr h ↦ rw h (ap to_u32 (rtt_plain x.tv_sec x.tv_usec y.tv_sec y.tv_usec))
]

-- If `x` is later than `y` by less than 2 ^ 32 microseconds, `calculate_rtt` is that time exactly.
pub calculate_rtt_exact :
    (x y : Timeval) (d : ℕ) → d < 2 ^ 32 → micros y +ℤ pos d ≡ micros x → calculate_rtt x y ≡ d
calculate_rtt_exact x y d h e =
    calculate_rtt-wraps x y ∙ ap to_u32 {y = pos d} (rest (micros x) (micros y) e) ∙ omega arith
  where
    rest : (a b : ℤ) → b +ℤ pos d ≡ a → a -ℤ b ≡ pos d
    rest a b p = omega (int_laws, ap pos_part p, ap neg_part p)

-- A time split into seconds and microseconds.
pub micros-from_micros : (d : ℕ) → micros (from_micros d) ≡ pos d
unfolding micros
micros-from_micros d = omega int_laws
