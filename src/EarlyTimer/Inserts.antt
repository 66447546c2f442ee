-- ===== src/EarlyTimer/Inserts.antt =====
-- The insertion of a node into the list of the earlier timer, as far as the links go.
use osu_cse.Base.{ℕ, zero, suc, ◌<◌, ◌≡◌, ap, ◌∙◌, arith, inl, inr, ◌⊎◌, Bool-cases}
use osu_cse.Base.{length, Option, none, some}
use osu_cse.Base.{◌≢◌, Bool, true, false, ap₂, get_or-set_self, get_or-set_ne}
use osu_cse.Base.Int.{ltb_ℤ}
use osu_cse.Timeval.{timeval_subtract, carry}
use osu_cse.Timeval.Laws.{carry-carry}
use osu_cse.EarlyTimer.{Heap, cell, nowhere, set_delta, insert_at, insert, and_head}
use osu_cse.EarlyTimer.Links.{IsSame, IsSame-trans, set_delta-IsSame}
use osu_cse.EarlyTimer.Backs.{IsBacked, HasForward, IsSame-HasForward, IsSame-IsBacked}
use osu_cse.EarlyTimer.Ranks.{IsRanked, IsSame-IsRanked, shift, shift-IsRanked}
use osu_cse.EarlyTimer.Puts.{
  IsGrown, IsPut, IsSame-IsGrown, Option-cases, put_first-IsGrown, put_behind-IsGrown,
  put_before-IsPut,
}

not_both : (b : Bool) → b ≡ true → b ≡ false → ⊥
not_both b e e' = ground arith

-- There is a node in front of this one, or the new one does not go there.
abbrev HasWay : Heap → ℕ → ℕ → Type 0
HasWay h new node =
    HasForward h node
    ⊎ ((timeval_subtract (cell h new).delta_time (cell h node).delta_time).negative ≡ false)

insert_at-IsPut :
    (fuel : ℕ) (r : ℕ → ℕ) (n : ℕ) (h : Heap) (node : ℕ)
    → IsRanked r n h
    → length h ≡ suc n
    → node < n
    → IsBacked h
    → HasWay h n node
    → IsPut n (insert_at fuel h n node)
unfolding insert_at
insert_at-IsPut zero r n h node v size old backed way =
    (shift r n n, shift-IsRanked r n n h (omega arith) v, size, backed)
insert_at-IsPut (suc fuel) r n h node v size old backed way =
    let test = timeval_subtract (cell h n).delta_time (cell h node).delta_time in
    let before = timeval_subtract test.y (cell h n).delta_time in
    let later = timeval_subtract (cell h n).delta_time test.y in
    let met : Heap = set_delta h n before.y in
    let passed : Heap = set_delta (set_delta h node later.y) n later.result in
    let met_same : IsSame h met = set_delta-IsSame h n before.y in
    let passed_same : IsSame h passed =
      IsSame-trans h _ passed (set_delta-IsSame h node later.y)
        (set_delta-IsSame _ n later.result) in
    let passed_ranked = IsSame-IsRanked r n h passed passed_same v in
    let passed_backed = IsSame-IsBacked h passed passed_same backed in
    elim (Bool-cases test.negative) [
      | inl is_less ↦ elim way [
        | inl (f, link) ↦
            rw (is_less, link, IsPut)
              (put_before-IsPut r n met node f before.result (IsSame-IsRanked r n h met met_same v)
                (met_same.size ∙ size) old (met_same.forward node ∙ link)
                (IsSame-IsBacked h met met_same backed))
        | inr is_not ↦ absurd (not_both _ is_less is_not)
      ]
      | inr is_more ↦ elim (Option-cases (cell h node).next) [
        | inl end ↦
            rw (is_more, end, IsPut)
              (put_behind-IsGrown r n passed node passed_ranked (passed_same.size ∙ size) old
                passed_backed)
        | inr (after, e) ↦
            rw (is_more, e, IsPut)
              (insert_at-IsPut fuel r n passed after passed_ranked (passed_same.size ∙ size)
                (v.next node after e).1 passed_backed
                (inl (IsSame-HasForward h passed after passed_same (backed.back node after e))))
      ]
    ]

-- The heap and the head after a node was put in.
abbrev pub IsHeaded : ℕ → Option (Heap × ℕ) → Type 0
IsHeaded n none = ⊥
IsHeaded n (some (h, head)) = IsGrown n h × (head < suc n)

and_head-IsHeaded :
    (n head : ℕ) (o : Option Heap) → head < suc n → IsPut n o → IsHeaded n (and_head head o)
and_head-IsHeaded n head none old put = put
and_head-IsHeaded n head (some h) old put = (put, old)

-- The comparison with the head is made twice, the second time with the time that the first wrote.
head_again :
    (h : Heap) (new head : ℕ)
    → head < length h
    → head ≢ new
    → (timeval_subtract (cell h new).delta_time (cell h head).delta_time).negative ≡ false
    → (let kept : Heap =
          set_delta h head (timeval_subtract (cell h new).delta_time (cell h head).delta_time).y in
        (timeval_subtract (cell kept new).delta_time (cell kept head).delta_time).negative)
      ≡ false
unfolding timeval_subtract
head_again h new head inside apart is_more =
    ap₂ (λ c d. ltb_ℤ c.delta_time.tv_sec (carry c.delta_time d.delta_time).tv_sec)
      (get_or-set_ne h head new _ nowhere apart) (get_or-set_self h head _ nowhere inside)
    ∙ ap (λ y. ltb_ℤ (cell h new).delta_time.tv_sec y.tv_sec)
        (carry-carry (cell h new).delta_time (cell h head).delta_time)
    ∙ is_more

pub insert-IsHeaded :
    (r : ℕ → ℕ) (n : ℕ) (h : Heap) (head : ℕ)
    → IsRanked r n h
    → length h ≡ suc n
    → head < n
    → IsBacked h
    → IsHeaded n (insert h n head)
unfolding insert
insert-IsHeaded r n h head v size old backed =
    let test = timeval_subtract (cell h n).delta_time (cell h head).delta_time in
    let before = timeval_subtract test.y (cell h n).delta_time in
    let met : Heap = set_delta h n before.y in
    let kept : Heap = set_delta h head test.y in
    let met_same : IsSame h met = set_delta-IsSame h n before.y in
    let kept_same : IsSame h kept = set_delta-IsSame h head test.y in
    elim (Bool-cases test.negative) [
      | inl is_less ↦ rw is_less (
        IsSame-IsGrown n _ _ (set_delta-IsSame _ head before.result) (
            put_first-IsGrown r n met head (IsSame-IsRanked r n h met met_same v)
              (met_same.size ∙ size) old (IsSame-IsBacked h met met_same backed)),
        omega arith,
      )
      | inr is_more ↦ rw is_more (
          and_head-IsHeaded n head (insert_at (length h) kept n head) (omega (arith, old)) (
            insert_at-IsPut (length h) r n kept head (IsSame-IsRanked r n h kept kept_same v)
              (kept_same.size ∙ size) old (IsSame-IsBacked h kept kept_same backed)
              (inr (head_again h n head (omega (arith, size, old)) (omega (arith, old)) is_more))))
    ]
