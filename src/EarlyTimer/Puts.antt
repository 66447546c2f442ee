-- ===== src/EarlyTimer/Puts.antt =====
-- The links of a node that is put behind or in front of another.
use osu_cse.Base.{ℕ, suc, ◌<◌, ◌≡◌, refl, ap, ◌∙◌, arith, inl, inr, ◌⊎◌}
use osu_cse.Base.{length, length-set, Option, none, some}
use mathlib.Core.Path.{subst}
use osu_cse.Timeval.{Timeval}
use osu_cse.EarlyTimer.{Heap, cell, set_next, set_forward, put_before, put_behind}
use osu_cse.EarlyTimer.Links.{IsSame, set_delta-IsSame}
use osu_cse.EarlyTimer.Backs.{IsBacked, IsSame-IsBacked, link-IsBacked}
use osu_cse.EarlyTimer.Ranks.{
  value, IsRanked, set_next-IsRanked, set_forward-IsRanked, IsSame-IsRanked, shift, shift-new,
  shift-low, shift-high, shift-IsRanked,
}

-- The cell `n` is in use too.
abbrev pub IsGrown : ℕ → Heap → Type 0
IsGrown n h = (r : ℕ → ℕ) × IsRanked r (suc n) h × (length h ≡ suc n) × IsBacked h

abbrev pub IsPut : ℕ → Option Heap → Type 0
IsPut n none = ⊥
IsPut n (some h) = IsGrown n h

pub IsSame-IsGrown : (n : ℕ) (h h' : Heap) → IsSame h h' → IsGrown n h → IsGrown n h'
IsSame-IsGrown n h h' s (r, v, size, b) =
    (r, IsSame-IsRanked r (suc n) h h' s v, s.size ∙ size, IsSame-IsBacked h h' s b)

pub Option-cases : {A : Type 0} (p : Option A) → (p ≡ none) ⊎ ((a : A) × (p ≡ some a))
Option-cases none = inl refl
Option-cases (some a) = inr (a, refl)

-- A link to a higher rank, and a link to a lower one.
link_next :
    (r : ℕ → ℕ) (n : ℕ) (h : Heap) (x y : ℕ)
    → x < n
    → y < n
    → r x < r y
    → IsRanked r n h
    → IsRanked r n (set_next h x (some y))
link_next r n h x y x_in y_in up v =
    set_next-IsRanked r n h x (some y)
      (λ b e. subst (λ z. (x < n) × (z < n) × (r x < r z)) (ap (value y) e) (x_in, y_in, up)) v

link_forward :
    (r : ℕ → ℕ) (n : ℕ) (h : Heap) (x y : ℕ)
    → x < n
    → y < n
    → r y < r x
    → IsRanked r n h
    → IsRanked r n (set_forward h x (some y))
link_forward r n h x y x_in y_in down v =
    set_forward-IsRanked r n h x (some y)
      (λ b e. subst (λ z. (x < n) × (z < n) × (r z < r x)) (ap (value y) e) (x_in, y_in, down)) v

pub put_behind-IsGrown :
    (r : ℕ → ℕ) (n : ℕ) (h : Heap) (node : ℕ)
    → IsRanked r n h
    → length h ≡ suc n
    → node < n
    → IsBacked h
    → IsGrown n (put_behind h n node)
put_behind-IsGrown r n h node v size old backed = (
  s,
  link_forward s (suc n) (set_next h node (some n)) n node (omega arith) (omega (arith, old)) up (
      link_next s (suc n) h node n (omega (arith, old)) (omega arith) up
        (shift-IsRanked r n n h (omega arith) v)),
  length-set _ _ _ ∙ length-set _ _ _ ∙ size,
  link-IsBacked h node n node (omega (arith, size)) backed,
)
  where
    s : ℕ → ℕ
    s = shift r n n

    up : s node < s n
    up =
        omega
          (arith, shift-new r n n, shift-low r n n node old (v.bound node old), v.bound node old)

pub put_before-IsPut :
    (r : ℕ → ℕ) (n : ℕ) (h : Heap) (node f : ℕ) (d : Timeval)
    → IsRanked r n h
    → length h ≡ suc n
    → node < n
    → (cell h node).forward ≡ some f
    → IsBacked h
    → IsPut n (put_before h n node (some f) d)
put_before-IsPut r n h node f d v size old link backed =
    IsSame-IsGrown n linked _ (set_delta-IsSame linked node d) (
      s,
      link_forward s (suc n) three node n node_in n_in under (
          link_next s (suc n) two n node n_in node_in under (
            link_forward s (suc n) one n f n_in f_in over (
              link_next s (suc n) h f n f_in n_in over
                (shift-IsRanked r n (r node) h (omega (arith, v.bound node old)) v)))),
      length-set _ _ _ ∙ length-set _ _ _ ∙ length-set _ _ _ ∙ length-set _ _ _ ∙ size,
      link-IsBacked two n node n (omega (arith, size_two, old))
          (link-IsBacked h f n f (omega (arith, size)) backed),
    )
  where
    s : ℕ → ℕ
    s = shift r n (r node)

    one : Heap
    one = set_next h f (some n)

    two : Heap
    two = set_forward one n (some f)

    size_two : length two ≡ suc n
    size_two = length-set _ _ _ ∙ length-set _ _ _ ∙ size

    three : Heap
    three = set_next two n (some node)

    linked : Heap
    linked = set_forward three node (some n)

    before : (node < n) × (f < n) × (r f < r node)
    before = v.forward node f link

    node_in : node < suc n
    node_in = omega (arith, old)

    n_in : n < suc n
    n_in = omega arith

    f_in : f < suc n
    f_in = omega (arith, before.1)

    over : s f < s n
    over =
        omega (arith, shift-new r n (r node), shift-low r n (r node) f before.1 before.2, before.2)

    under : s n < s node
    under = omega (arith, shift-new r n (r node), shift-high r n (r node) node old (omega arith))

pub put_first-IsGrown :
    (r : ℕ → ℕ) (n : ℕ) (h : Heap) (head : ℕ)
    → IsRanked r n h
    → length h ≡ suc n
    → head < n
    → IsBacked h
    → IsGrown n (set_forward (set_next h n (some head)) head (some n))
put_first-IsGrown r n h head v size old backed = (
  s,
  link_forward s (suc n) (set_next h n (some head)) head n (omega (arith, old)) (omega arith) up (
      link_next s (suc n) h n head (omega arith) (omega (arith, old)) up
        (shift-IsRanked r n (r head) h (omega (arith, v.bound head old)) v)),
  length-set _ _ _ ∙ length-set _ _ _ ∙ size,
  link-IsBacked h n head n (omega (arith, size, old)) backed,
)
  where
    s : ℕ → ℕ
    s = shift r n (r head)

    up : s n < s head
    up = omega (arith, shift-new r n (r head), shift-high r n (r head) head old (omega arith))
