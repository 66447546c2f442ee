-- ===== src/EarlyTimer/Ranks.antt =====
-- A rank of the cells of the heap, for `next` to lead to a higher rank and `forward` to a lower one.
use osu_cse.Base.{
  ℕ, zero, suc, ◌<◌, ◌≤◌, ◌≡◌, refl, sym, ap, ◌∙◌, arith, inl, inr, true, ◌⊎◌, ltb, ◌==◌,
  if◌then◌else◌,
}
use osu_cse.Base.{[], ◌∷◌, ◌++◌, set, Option, none, some}
use mathlib.Core.Path.{subst}
use osu_cse.EarlyTimer.{Cell, Heap, cell, nowhere, set_next, set_forward}
use osu_cse.EarlyTimer.Links.{IsSame, cell-set}

-- The cells below `n` are in use.
pub record IsRanked (r : ℕ → ℕ) (n : ℕ) (h : Heap) : Type 0 where
  pub bound : (a : ℕ) → a < n → r a < n
  pub next : (a b : ℕ) → (cell h a).next ≡ some b → (a < n) × (b < n) × (r a < r b)
  pub forward : (a f : ℕ) → (cell h a).forward ≡ some f → (a < n) × (f < n) × (r f < r a)

-- A pointer is null or to a cell in use.
abbrev pub IsIn : ℕ → Option ℕ → Type 0
IsIn n none = Unit
IsIn n (some a) = a < n

abbrev pub value : ℕ → Option ℕ → ℕ
value d none = d
value d (some a) = a

-- A cell read after a write: as before, or the one that was written.
pub cell-set-cases :
    {B : Type 0} (f : Cell → B) (h : Heap) (x a : ℕ) (c : Cell)
    → (f (cell (set h x c) a) ≡ f (cell h a)) ⊎ ((a ≡ x) × (f (cell (set h x c) a) ≡ f c))
cell-set-cases f [] x a c = inl refl
cell-set-cases f (d ∷ h) zero zero c = inr (refl, refl)
cell-set-cases f (d ∷ h) zero (suc a) c = inl refl
cell-set-cases f (d ∷ h) (suc x) zero c = inl refl
cell-set-cases f (d ∷ h) (suc x) (suc a) c = elim (cell-set-cases f h x a c) [
  | inl e ↦ inl e
  | inr (e, e') ↦ inr (ap suc e, e')
]

pub set_next-IsRanked :
    (r : ℕ → ℕ) (n : ℕ) (h : Heap) (x : ℕ) (p : Option ℕ)
    → ((b : ℕ) → p ≡ some b → (x < n) × (b < n) × (r x < r b))
    → IsRanked r n h
    → IsRanked r n (set_next h x p)
set_next-IsRanked r n h x p up v = record {
  bound = v.bound;
  next = λ a b e. elim (cell-set-cases (λ c. c.next) h x a (record (cell h x) { next = p })) [
    | inl same ↦ v.next a b (sym same ∙ e)
    | inr (at_x, new) ↦ subst (λ y. (y < n) × (b < n) × (r y < r b)) (sym at_x) (up b (sym new ∙ e))
  ];
  forward = λ a f e. v.forward a f (sym (cell-set (λ c. c.forward) h x a _ refl) ∙ e);
}

pub set_forward-IsRanked :
    (r : ℕ → ℕ) (n : ℕ) (h : Heap) (x : ℕ) (p : Option ℕ)
    → ((f : ℕ) → p ≡ some f → (x < n) × (f < n) × (r f < r x))
    → IsRanked r n h
    → IsRanked r n (set_forward h x p)
set_forward-IsRanked r n h x p down v = record {
  bound = v.bound;
  next = λ a b e. v.next a b (sym (cell-set (λ c. c.next) h x a _ refl) ∙ e);
  forward = λ a f e.
      elim (cell-set-cases (λ c. c.forward) h x a (record (cell h x) { forward = p })) [
        | inl same ↦ v.forward a f (sym same ∙ e)
        | inr (at_x, new) ↦
            subst (λ y. (y < n) × (f < n) × (r f < r y)) (sym at_x) (down f (sym new ∙ e))
      ];
}

pub IsSame-IsRanked :
    (r : ℕ → ℕ) (n : ℕ) (h h' : Heap) → IsSame h h' → IsRanked r n h → IsRanked r n h'
IsSame-IsRanked r n h h' s v = record {
  bound = v.bound;
  next = λ a b e. v.next a b (sym (s.next a) ∙ e);
  forward = λ a f e. v.forward a f (sym (s.forward a) ∙ e);
}

pub cell-append :
    {B : Type 0} (f : Cell → B) (h : Heap) (c : Cell) (a : ℕ)
    → f c ≡ f nowhere
    → f (cell (h ++ (c ∷ [])) a) ≡ f (cell h a)
cell-append f [] c zero e = e
cell-append f [] c (suc a) e = refl
cell-append f (d ∷ h) c zero e = refl
cell-append f (d ∷ h) c (suc a) e = cell-append f h c a e

-- A new cell without links.
pub push-IsRanked :
    (r : ℕ → ℕ) (n : ℕ) (h : Heap) (c : Cell)
    → c.next ≡ none
    → c.forward ≡ none
    → IsRanked r n h
    → IsRanked r n (h ++ (c ∷ []))
push-IsRanked r n h c no_next no_forward v = record {
  bound = v.bound;
  next = λ a b e. v.next a b (sym (cell-append (λ d. d.next) h c a no_next) ∙ e);
  forward = λ a f e. v.forward a f (sym (cell-append (λ d. d.forward) h c a no_forward) ∙ e);
}

-- The cell `n` comes to rank `k`; those from there on go up.
pub shift : (ℕ → ℕ) → ℕ → ℕ → ℕ → ℕ
shift r n k a = if a == n then k else if ltb (r a) k then r a else suc (r a)

pub shift-new : (r : ℕ → ℕ) (n k : ℕ) → shift r n k n ≡ k
unfolding shift
shift-new r n k = rw (same n)
  where
    same : (n : ℕ) → (n == n) ≡ true
    same n = ground arith

pub shift-low : (r : ℕ → ℕ) (n k a : ℕ) → a < n → r a < k → shift r n k a ≡ r a
unfolding shift
shift-low r n k a old low = go (r a) low
  where
    go : (i : ℕ) → i < k → (if a == n then k else if ltb i k then i else suc i) ≡ i
    go i low = ground arith

pub shift-high : (r : ℕ → ℕ) (n k a : ℕ) → a < n → k ≤ r a → shift r n k a ≡ suc (r a)
unfolding shift
shift-high r n k a old high = go (r a) high
  where
    go : (i : ℕ) → k ≤ i → (if a == n then k else if ltb i k then i else suc i) ≡ suc i
    go i high = ground arith

shift-lt : (r : ℕ → ℕ) (n k a b : ℕ) → a < n → b < n → r a < r b → shift r n k a < shift r n k b
unfolding shift
shift-lt r n k a b old_a old_b lt = go (r a) (r b) lt
  where
    go :
        (i j : ℕ)
        → i < j
        → (if a == n then k else if ltb i k then i else suc i)
          < (if b == n then k else if ltb j k then j else suc j)
    go i j lt = ground arith

shift-bound :
    (r : ℕ → ℕ) (n k a : ℕ) → k ≤ n → (a < n → r a < n) → a < suc n → shift r n k a < suc n
unfolding shift
shift-bound r n k a small below old = go (r a) below
  where
    go : (i : ℕ) → (a < n → i < n) → (if a == n then k else if ltb i k then i else suc i) < suc n
    go i below = ground arith

pub shift-IsRanked :
    (r : ℕ → ℕ) (n k : ℕ) (h : Heap) → k ≤ n → IsRanked r n h → IsRanked (shift r n k) (suc n) h
shift-IsRanked r n k h small v = record {
  bound = λ a old. shift-bound r n k a small (v.bound a) old;
  next = λ a b e.
      let (i, j, lt) = v.next a b e in
      (omega (arith, i), omega (arith, j), shift-lt r n k a b i j lt);
  forward = λ a f e.
      let (i, j, lt) = v.forward a f e in
      (omega (arith, i), omega (arith, j), shift-lt r n k f a j i lt);
}
