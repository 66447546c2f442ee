-- ===== src/EarlyTimer/Links.antt =====
-- The list in the heap: which cells it links, and that the times in them do not matter for it.
use osu_cse.Base.{ℕ, zero, suc, ◌<◌, ◌≡◌, ◌≢◌, refl, sym, ap, ◌∙◌, arith}
use osu_cse.Base.{true, false, ◌==◌}
use osu_cse.Base.{List, [], ◌∷◌, ◌++◌, length, length-set, set, get_or-set_ne, Option, none, some}
use mathlib.Core.Path.{subst}
use osu_cse.Timeval.{Timeval}
use osu_cse.EarlyTimer.{
  Cell, Heap, cell, nowhere, set_delta, search, print_from, print_time_list, hand_on,
}

-- The nodes from `p` on are those at these addresses.
abbrev pub IsChain : Heap → Option ℕ → List ℕ → Type 0
IsChain h p [] = p ≡ none
IsChain h p (a ∷ nodes) = (p ≡ some a) × ((a < length h) × IsChain h (cell h a).next nodes)

abbrev pub Lacks : ℕ → List ℕ → Type 0
Lacks x [] = Unit
Lacks x (a ∷ nodes) = (x ≢ a) × Lacks x nodes

-- Two heaps that differ in times only.
pub record IsSame (h h' : Heap) : Type 0 where
  pub size : length h' ≡ length h
  pub id : (a : ℕ) → (cell h' a).id ≡ (cell h a).id
  pub forward : (a : ℕ) → (cell h' a).forward ≡ (cell h a).forward
  pub next : (a : ℕ) → (cell h' a).next ≡ (cell h a).next

pub IsSame-refl : (h : Heap) → IsSame h h
IsSame-refl h = record { size = refl; id = λ a. refl; forward = λ a. refl; next = λ a. refl }

pub IsSame-trans : (h h' h'' : Heap) → IsSame h h' → IsSame h' h'' → IsSame h h''
IsSame-trans h h' h'' s t = record {
  size = t.size ∙ s.size;
  id = λ a. t.id a ∙ s.id a;
  forward = λ a. t.forward a ∙ s.forward a;
  next = λ a. t.next a ∙ s.next a;
}

-- A cell read after a write, in range or not.
pub cell-set :
    {B : Type 0} (f : Cell → B) (h : Heap) (x a : ℕ) (c : Cell)
    → f c ≡ f (cell h x)
    → f (cell (set h x c) a) ≡ f (cell h a)
cell-set f [] x a c e = refl
cell-set f (d ∷ h) zero zero c e = e
cell-set f (d ∷ h) zero (suc a) c e = refl
cell-set f (d ∷ h) (suc x) zero c e = refl
cell-set f (d ∷ h) (suc x) (suc a) c e = cell-set f h x a c e

pub set_delta-IsSame : (h : Heap) (x : ℕ) (d : Timeval) → IsSame h (set_delta h x d)
set_delta-IsSame h x d = record {
  size = length-set h x _;
  id = λ a. cell-set (λ c. c.id) h x a _ refl;
  forward = λ a. cell-set (λ c. c.forward) h x a _ refl;
  next = λ a. cell-set (λ c. c.next) h x a _ refl;
}

print_from-IsSame : (fuel : ℕ) (h : Heap) (p : Option ℕ) → IsSame h (print_from fuel h p)
unfolding print_from
print_from-IsSame zero h p = IsSame-refl h
print_from-IsSame (suc fuel) h none = IsSame-refl h
print_from-IsSame (suc fuel) h (some a) =
    IsSame-trans h _ _ (set_delta-IsSame h a _) (print_from-IsSame fuel _ (cell h a).next)

pub print_time_list-IsSame : (h : Heap) (p : Option ℕ) → IsSame h (print_time_list h p)
print_time_list-IsSame h p = print_from-IsSame (length h) h p

pub hand_on-IsSame : (h : Heap) (p : Option ℕ) (d : Timeval) → IsSame h (hand_on h p d)
hand_on-IsSame h none d = IsSame-refl h
hand_on-IsSame h (some a) d = set_delta-IsSame h a _

pub IsSame-IsChain :
    (h h' : Heap) (p : Option ℕ) (nodes : List ℕ)
    → IsSame h h'
    → IsChain h p nodes
    → IsChain h' p nodes
IsSame-IsChain h h' p [] s c = c
IsSame-IsChain h h' p (a ∷ nodes) s c = (
  c.0,
  (
    omega (arith, s.size, c.1.0),
    IsSame-IsChain h h' (cell h' a).next nodes s
        (subst (λ q. IsChain h q nodes) (sym (s.next a)) c.1.1),
  ),
)

-- A write to a cell that is not in the list.
pub IsChain-set :
    (h : Heap) (p : Option ℕ) (nodes : List ℕ) (x : ℕ) (c : Cell)
    → Lacks x nodes
    → IsChain h p nodes
    → IsChain (set h x c) p nodes
IsChain-set h p [] x c l chain = chain
IsChain-set h p (a ∷ nodes) x c l chain = (
  chain.0,
  (
    omega (arith, length-set h x c, chain.1.0),
    IsChain-set h (cell (set h x c) a).next nodes x c l.1
        (subst (λ d. IsChain h d.next nodes) (sym (get_or-set_ne h x a c nowhere l.0)) chain.1.1),
  ),
)

-- No node before the one that is searched has its id.
abbrev pub Others : Heap → ℕ → List ℕ → Type 0
Others h id [] = Unit
Others h id (a ∷ nodes) = ((cell h a).id ≢ id) × Others h id nodes

pub search-chain :
    (fuel : ℕ) (h : Heap) (p : Option ℕ) (front back : List ℕ) (x id : ℕ)
    → IsChain h p (front ++ (x ∷ back))
    → length front < fuel
    → Others h id front
    → (cell h x).id ≡ id
    → search fuel h p id ≡ some x
unfolding search
search-chain zero h p front back x id chain enough others e = absurd (omega arith)
search-chain (suc fuel) h p [] back x id chain enough others e =
    ap (λ q. search (suc fuel) h q id) chain.0 ∙ rw (same e)
  where
    same : (cell h x).id ≡ id → ((cell h x).id == id) ≡ true
    same e = ground arith
search-chain (suc fuel) h p (a ∷ front) back x id chain enough others e =
    ap (λ q. search (suc fuel) h q id) chain.0
    ∙ rw (other others.0)
        (search-chain fuel h (cell h a).next front back x id chain.1.1 (omega arith) others.1 e)
  where
    other : (cell h a).id ≢ id → ((cell h a).id == id) ≡ false
    other d = ground arith
