-- ===== src/EarlyTimer/Removal.antt =====
-- What a deletion does to the list, and to the next deletion.
use osu_cse.Base.{ℕ, ◌≤◌, ◌≡◌, ◌≢◌, refl, sym, ◌∙◌, arith}
use osu_cse.Base.{false, ◌==◌}
use osu_cse.Base.{
  List, [], ◌∷◌, ◌++◌, length, length-append, length-set, get_or-set_self, get_or-set_ne, Option,
  some,
}
use mathlib.Core.Path.{subst}
use mathlib.Core.List.{append_assoc}
use osu_cse.EarlyTimer.{Heap, cell, nowhere, set_next, search, print_time_list, hand_on}
use osu_cse.EarlyTimer.{delete_timenode}
use osu_cse.EarlyTimer.Links.{
  IsChain, cell-set, Lacks, Others, IsSame, IsSame-trans, print_time_list-IsSame, hand_on-IsSame,
}
use osu_cse.EarlyTimer.Links.{IsSame-IsChain, IsChain-set, search-chain}

-- The node before `x` is linked past it.
unlink-IsChain :
    (h : Heap) (p : Option ℕ) (front rest : List ℕ) (f x : ℕ)
    → IsChain h p (front ++ (f ∷ x ∷ rest))
    → Lacks f front
    → Lacks f rest
    → IsChain (set_next h f (cell h x).next) p (front ++ (f ∷ rest))
unlink-IsChain h p [] rest f x chain l r = (
  chain.0,
  (
    omega (arith, chain.1.0, length-set h f (record (cell h f) { next = (cell h x).next })),
    subst (λ c. IsChain (set_next h f (cell h x).next) c.next rest)
        (sym (get_or-set_self h f _ nowhere chain.1.0))
        (IsChain-set h (cell h x).next rest f _ r chain.1.1.1.1),
  ),
)
unlink-IsChain h p (a ∷ front) rest f x chain l r = (
  chain.0,
  (
    omega (arith, chain.1.0, length-set h f (record (cell h f) { next = (cell h x).next })),
    subst (λ c. IsChain (set_next h f (cell h x).next) c.next (front ++ (f ∷ rest)))
        (sym (get_or-set_ne h f a _ nowhere l.0))
        (unlink-IsChain h (cell h a).next front rest f x chain.1.1 l.1 r),
  ),
)

-- A deletion behind the head, as far as the links go.
delete-behind :
    (h : Heap) (a x f id : ℕ)
    → (cell h a).id ≢ id
    → search (length h) h (some a) id ≡ some x
    → (cell h x).forward ≡ some f
    → (h' : Heap) × (delete_timenode h (some a) id ≡ some (h', some a))
      × IsSame (set_next h f (cell h x).next) h'
unfolding delete_timenode
delete-behind h a x f id not_head found link = (
  print_time_list handed (some a),
  rw (other not_head, found, link),
  IsSame-trans unlinked handed (print_time_list handed (some a))
      (hand_on-IsSame unlinked (cell h x).next (cell h x).delta_time)
      (print_time_list-IsSame handed (some a)),
)
  where
    unlinked : Heap
    unlinked = set_next h f (cell h x).next

    handed : Heap
    handed = hand_on unlinked (cell h x).next (cell h x).delta_time

    other : (cell h a).id ≢ id → ((cell h a).id == id) ≡ false
    other d = ground arith

-- The same from any pointer to a list in which others stand before the node.
delete-other :
    (h : Heap) (p : Option ℕ) (before back : List ℕ) (x g id : ℕ)
    → 1 ≤ length before
    → IsChain h p (before ++ (x ∷ back))
    → length (before ++ (x ∷ back)) ≤ length h
    → Others h id before
    → (cell h x).id ≡ id
    → (cell h x).forward ≡ some g
    → (h' : Heap) × (delete_timenode h p id ≡ some (h', p))
      × IsSame (set_next h g (cell h x).next) h'
delete-other h p [] back x g id one chain fits others e link = absurd (omega arith)
delete-other h p (a ∷ before) back x g id one chain fits others e link =
    subst
      (λ q.
        (h' : Heap) × (delete_timenode h q id ≡ some (h', q))
        × IsSame (set_next h g (cell h x).next) h')
      (sym chain.0)
      (delete-behind h a x g id others.0
        (search-chain (length h) h (some a) (a ∷ before) back x id (refl, chain.1)
          (omega (arith, fits, length-append before (x ∷ back))) others e)
        link)

-- The nodes up to `f`, then `x`, in two ways.
regroup : (front rest : List ℕ) (f : ℕ) → (front ++ (f ∷ [])) ++ rest ≡ front ++ (f ∷ rest)
regroup front rest f = append_assoc front (f ∷ []) rest

length-before : (front : List ℕ) (f : ℕ) → 1 ≤ length (front ++ (f ∷ []))
length-before front f = omega (arith, length-append front (f ∷ []))

delete-linked :
    (h : Heap) (p : Option ℕ) (front back : List ℕ) (f x g id : ℕ)
    → IsChain h p (front ++ (f ∷ x ∷ back))
    → length (front ++ (f ∷ x ∷ back)) ≤ length h
    → Others h id (front ++ (f ∷ []))
    → (cell h x).id ≡ id
    → (cell h x).forward ≡ some g
    → (h' : Heap) × (delete_timenode h p id ≡ some (h', p))
      × IsSame (set_next h g (cell h x).next) h'
delete-linked h p front back f x g id chain fits others e link =
    delete-other h p (front ++ (f ∷ [])) back x g id (length-before front f)
      (subst (IsChain h p) (sym (regroup front (x ∷ back) f)) chain)
      (subst (λ l. length l ≤ length h) (sym (regroup front (x ∷ back) f)) fits) others e link

-- Deleting a node behind the head whose `forward` is the node before it takes this node out of the
-- list and leaves the others in it, in order.
pub delete_timenode-IsChain :
    (h : Heap) (p : Option ℕ) (front back : List ℕ) (f x id : ℕ)
    → IsChain h p (front ++ (f ∷ x ∷ back))
    → length (front ++ (f ∷ x ∷ back)) ≤ length h
    → Lacks f front
    → Lacks f back
    → Others h id (front ++ (f ∷ []))
    → (cell h x).id ≡ id
    → (cell h x).forward ≡ some f
    → (h' : Heap) × (delete_timenode h p id ≡ some (h', p)) × IsChain h' p (front ++ (f ∷ back))
delete_timenode-IsChain h p front back f x id chain fits l r others e link =
    let (h', done, same) = delete-linked h p front back f x f id chain fits others e link in
    (
      h',
      done,
      IsSame-IsChain (set_next h f (cell h x).next) h' p (front ++ (f ∷ back)) same
          (unlink-IsChain h p front back f x chain l r),
    )

Others-ids :
    (h h' : Heap) (id : ℕ) (nodes : List ℕ)
    → ((a : ℕ) → (cell h' a).id ≡ (cell h a).id)
    → Others h id nodes
    → Others h' id nodes
Others-ids h h' id [] same o = tt
Others-ids h h' id (a ∷ nodes) same o =
    (λ e. o.0 (sym (same a) ∙ e), Others-ids h h' id nodes same o.1)

-- If the node behind it is deleted too, whose `forward` the first deletion left as it was, that
-- deletion has no effect on the list: the node is still in it.
pub second_deletion_lost :
    (h : Heap) (p : Option ℕ) (front back : List ℕ) (f x y id_x id_y : ℕ)
    → IsChain h p (front ++ (f ∷ x ∷ y ∷ back))
    → length (front ++ (f ∷ x ∷ y ∷ back)) ≤ length h
    → Lacks f front
    → Lacks f (y ∷ back)
    → Lacks x (front ++ (f ∷ y ∷ back))
    → Others h id_x (front ++ (f ∷ []))
    → Others h id_y (front ++ (f ∷ []))
    → (cell h x).id ≡ id_x
    → (cell h y).id ≡ id_y
    → (cell h x).forward ≡ some f
    → (cell h y).forward ≡ some x
    → (h' : Heap) × (h'' : Heap) × (delete_timenode h p id_x ≡ some (h', p))
      × (delete_timenode h' p id_y ≡ some (h'', p))
      × IsChain h'' p (front ++ (f ∷ y ∷ back))
second_deletion_lost h p front back f x y id_x id_y chain fits l r apart ox oy ex ey lx ly =
    let (h', done, same) = delete-linked h p front (y ∷ back) f x f id_x chain fits ox ex lx in
    let unlinked : Heap = set_next h f (cell h x).next in
    let chain' : IsChain h' p (front ++ (f ∷ y ∷ back)) =
      IsSame-IsChain unlinked h' p (front ++ (f ∷ y ∷ back)) same
        (unlink-IsChain h p front (y ∷ back) f x chain l r) in
    let ids : ((a : ℕ) → (cell h' a).id ≡ (cell h a).id) =
      λ a. same.id a ∙ cell-set (λ c. c.id) h f a _ refl in
    let (h'', done', same') =
      delete-linked h' p front back f y x id_y chain'
        (omega (
          arith,
          same.size,
          fits,
          length-set h f (record (cell h f) { next = (cell h x).next }),
          length-append front (f ∷ x ∷ y ∷ back),
          length-append front (f ∷ y ∷ back),
        ))
        (Others-ids h h' id_y (front ++ (f ∷ [])) ids oy) (ids y ∙ ey)
        (same.forward y ∙ cell-set (λ c. c.forward) h f y _ refl ∙ ly) in
    (
      h',
      h'',
      done,
      done',
      IsSame-IsChain (set_next h' x (cell h' y).next) h'' p (front ++ (f ∷ y ∷ back)) same'
          (IsChain-set h' p (front ++ (f ∷ y ∷ back)) x _ apart chain'),
    )
