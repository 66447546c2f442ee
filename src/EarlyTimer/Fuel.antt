-- ===== src/EarlyTimer/Fuel.antt =====
-- The rounds of the loops over the list of the earlier timer.
use osu_cse.Base.{ℕ, zero, suc, ◌≤◌, ◌≡◌, refl, sym, ap, ◌∙◌, arith, inl, inr, Bool-cases}
use osu_cse.Base.{List, [], ◌∷◌, length, Option}
use mathlib.Core.Path.{subst}
use osu_cse.Timeval.{Timeval, timeval_subtract}
use osu_cse.EarlyTimer.{Heap, cell, set_delta, search, shown, print_from, expire, insert_at}
use osu_cse.EarlyTimer.Links.{IsChain, IsSame, IsSame-trans, IsSame-IsChain, set_delta-IsSame}

-- The search needs no more rounds than the list has nodes.
search_enough :
    (nodes : List ℕ) (fuel : ℕ) (h : Heap) (p : Option ℕ) (id : ℕ)
    → IsChain h p nodes
    → length nodes ≤ fuel
    → search fuel h p id ≡ search (length nodes) h p id
unfolding search
search_enough [] zero h p id chain enough = refl
search_enough [] (suc fuel) h p id chain enough = ap (λ q. search (suc fuel) h q id) chain
search_enough (a ∷ nodes) zero h p id chain enough = absurd (omega arith)
search_enough (a ∷ nodes) (suc fuel) h p id chain enough =
    ap (λ q. search (suc fuel) h q id) chain.0
    ∙ rw (search_enough nodes fuel h (cell h a).next id chain.1.1 (omega arith)) refl
    ∙ ap (λ q. search (suc (length nodes)) h q id) (sym chain.0)

-- The same for printing, which writes the times.
print_enough :
    (nodes : List ℕ) (fuel : ℕ) (h : Heap) (p : Option ℕ)
    → IsChain h p nodes
    → length nodes ≤ fuel
    → print_from fuel h p ≡ print_from (length nodes) h p
unfolding print_from
print_enough [] zero h p chain enough = refl
print_enough [] (suc fuel) h p chain enough = ap (print_from (suc fuel) h) chain
print_enough (a ∷ nodes) zero h p chain enough = absurd (omega arith)
print_enough (a ∷ nodes) (suc fuel) h p chain enough =
    let written : Heap = set_delta h a (shown (cell h a).delta_time) in
    ap (print_from (suc fuel) h) chain.0
    ∙ print_enough nodes fuel written (cell h a).next
        (IsSame-IsChain h written (cell h a).next nodes (set_delta-IsSame h a _) chain.1.1)
        (omega arith)
    ∙ ap (print_from (suc (length nodes)) h) (sym chain.0)

-- The same for the loop that drops the nodes that are due.
expire_enough :
    (nodes : List ℕ) (fuel : ℕ) (h : Heap) (p : Option ℕ) (dtime : Timeval)
    → IsChain h p nodes
    → length nodes ≤ fuel
    → expire fuel h p dtime ≡ expire (length nodes) h p dtime
unfolding expire
expire_enough [] zero h p dtime chain enough = refl
expire_enough [] (suc fuel) h p dtime chain enough =
    ap (λ q. expire (suc fuel) h q dtime) chain ∙ ap (λ q. (h, q)) (sym chain)
expire_enough (a ∷ nodes) zero h p dtime chain enough = absurd (omega arith)
expire_enough (a ∷ nodes) (suc fuel) h p dtime chain enough =
    let test = timeval_subtract dtime (cell h a).delta_time in
    let passed = timeval_subtract dtime test.y in
    let written : Heap = set_delta h a passed.y in
    ap (λ q. expire (suc fuel) h q dtime) chain.0
    ∙ rw
        (expire_enough nodes fuel written (cell h a).next passed.result
          (IsSame-IsChain h written (cell h a).next nodes (set_delta-IsSame h a _) chain.1.1)
          (omega arith))
        refl
    ∙ ap (λ q. expire (suc (length nodes)) h q dtime) (sym chain.0)

-- The loop for the insert point ends at the last node at the latest; `rest` is behind the first.
insert_at_enough :
    (rest : List ℕ) (fuel : ℕ) (h : Heap) (new node : ℕ)
    → IsChain h (cell h node).next rest
    → suc (length rest) ≤ fuel
    → insert_at fuel h new node ≡ insert_at (suc (length rest)) h new node
unfolding insert_at
insert_at_enough rest zero h new node chain enough = absurd (omega arith)
insert_at_enough [] (suc fuel) h new node chain enough =
    elim (Bool-cases (timeval_subtract (cell h new).delta_time (cell h node).delta_time).negative) [
      | inl is_less ↦ rw (is_less, insert_at)
      | inr is_more ↦ rw (is_more, chain, insert_at)
    ]
insert_at_enough (after ∷ rest) (suc fuel) h new node chain enough =
    let test = timeval_subtract (cell h new).delta_time (cell h node).delta_time in
    let later = timeval_subtract (cell h new).delta_time test.y in
    let passed : Heap = set_delta (set_delta h node later.y) new later.result in
    let same : IsSame h passed =
      IsSame-trans h _ passed (set_delta-IsSame h node later.y)
        (set_delta-IsSame _ new later.result) in
    let more =
      insert_at_enough rest fuel passed new after
        (IsSame-IsChain h passed (cell passed after).next rest same
          (subst (λ q. IsChain h q rest) (sym (same.next after)) chain.1.1))
        (omega arith) in
    elim (Bool-cases test.negative) [
      | inl is_less ↦ rw (is_less, insert_at)
      | inr is_more ↦ rw (is_more, chain.0, insert_at, more)
    ]
