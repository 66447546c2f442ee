-- ===== src/EarlyTimer/Backs.antt =====
-- The links `forward` of the cells to which a `next` leads.
use osu_cse.Base.{
  ℕ, zero, suc, ◌<◌, ◌≡◌, refl, sym, ap, ◌∙◌, arith, inl, inr, false, ◌==◌, Bool-cases,
}
use osu_cse.Base.{[], ◌∷◌, ◌++◌, length, length-set, get_or-set_self, Option, none, some}
use mathlib.Core.Path.{subst}
use osu_cse.EarlyTimer.{Cell, Heap, cell, nowhere, set_next, set_forward, search}
use osu_cse.EarlyTimer.Links.{IsSame, cell-set}
use osu_cse.EarlyTimer.Ranks.{cell-set-cases, cell-append, value}

abbrev pub HasForward : Heap → ℕ → Type 0
HasForward h a = (f : ℕ) × ((cell h a).forward ≡ some f)

pub record IsBacked (h : Heap) : Type 0 where
  pub back : (a b : ℕ) → (cell h a).next ≡ some b → HasForward h b

pub IsSame-HasForward : (h h' : Heap) (a : ℕ) → IsSame h h' → HasForward h a → HasForward h' a
IsSame-HasForward h h' a s (f, e) = (f, s.forward a ∙ e)

pub IsSame-IsBacked : (h h' : Heap) → IsSame h h' → IsBacked h → IsBacked h'
IsSame-IsBacked h h' s v = record {
  back = λ a b e. IsSame-HasForward h h' b s (v.back a b (sym (s.next a) ∙ e));
}

-- A node that is linked behind another gets its `forward` in the same step.
pub link-IsBacked :
    (h : Heap) (x y z : ℕ)
    → y < length h
    → IsBacked h
    → IsBacked (set_forward (set_next h x (some y)) y (some z))
link-IsBacked h x y z y_in v = record {
  back = λ a b e. elim (cell-set-cases (λ c. c.next) h x a (record (cell h x) { next = some y })) [
    | inl same ↦ kept b (v.back a b (sym same ∙ sym (next_kept a) ∙ e))
    | inr (at_x, new) ↦
        subst (HasForward linked) (ap (value y) (sym new ∙ sym (next_kept a) ∙ e)) written
  ];
}
  where
    one : Heap
    one = set_next h x (some y)

    linked : Heap
    linked = set_forward one y (some z)

    next_kept : (a : ℕ) → (cell linked a).next ≡ (cell one a).next
    next_kept a = cell-set (λ c. c.next) one y a _ refl

    written : HasForward linked y
    written = (
      z,
      ap (λ c. c.forward)
          (get_or-set_self one y _ nowhere
            (omega (arith, y_in, length-set h x (record (cell h x) { next = some y })))),
    )

    kept : (b : ℕ) → HasForward h b → HasForward linked b
    kept b (f, e) =
        elim (cell-set-cases (λ c. c.forward) one y b (record (cell one y) { forward = some z })) [
          | inl same ↦ (f, same ∙ cell-set (λ c. c.forward) h x b _ refl ∙ e)
          | inr (at_y, new) ↦ (z, new)
        ]

pub unlink-IsBacked : (h : Heap) (f a : ℕ) → IsBacked h → IsBacked (set_next h f (cell h a).next)
unlink-IsBacked h f a v = record {
  back = λ i b e.
      elim (cell-set-cases (λ c. c.next) h f i (record (cell h f) { next = (cell h a).next })) [
        | inl same ↦ kept b (v.back i b (sym same ∙ e))
        | inr (at_f, new) ↦ kept b (v.back a b (sym new ∙ e))
      ];
}
  where
    kept : (b : ℕ) → HasForward h b → HasForward (set_next h f (cell h a).next) b
    kept b (g, e) = (g, cell-set (λ c. c.forward) h f b _ refl ∙ e)

pub push-IsBacked :
    (h : Heap) (c : Cell) → c.next ≡ none → c.forward ≡ none → IsBacked h → IsBacked (h ++ (c ∷ []))
push-IsBacked h c no_next no_forward v = record {
  back = λ a b e.
      let (f, link) = v.back a b (sym (cell-append (λ d. d.next) h c a no_next) ∙ e) in
      (f, cell-append (λ d. d.forward) h c b no_forward ∙ link);
}

search-HasForward :
    (fuel : ℕ) (h : Heap) (p : Option ℕ) (id x : ℕ)
    → IsBacked h
    → ((b : ℕ) → p ≡ some b → HasForward h b)
    → search fuel h p id ≡ some x
    → HasForward h x
unfolding search
search-HasForward zero h p id x v start e = absurd (omega (arith, ap (value (suc x)) e))
search-HasForward (suc fuel) h none id x v start e = absurd (omega (arith, ap (value (suc x)) e))
search-HasForward (suc fuel) h (some b) id x v start e = elim (Bool-cases ((cell h b).id == id)) [
  | inl found ↦ subst (HasForward h) (ap (value x) (rw found at e)) (start b refl)
  | inr other ↦ search-HasForward fuel h (cell h b).next id x v (v.back b) (rw other at e)
]

-- A node that is found behind the head has a `forward`.
pub behind-HasForward :
    (fuel : ℕ) (h : Heap) (a id x : ℕ)
    → IsBacked h
    → ((cell h a).id == id) ≡ false
    → search fuel h (some a) id ≡ some x
    → HasForward h x
unfolding search
behind-HasForward zero h a id x v other e = absurd (omega (arith, ap (value (suc x)) e))
behind-HasForward (suc fuel) h a id x v other e =
    search-HasForward fuel h (cell h a).next id x v (v.back a) (rw other at e)
