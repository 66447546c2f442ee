-- ===== src/EarlyTimer/Rooted.antt =====
-- The operations on the list of the earlier timer, as far as its links and its head go.
use osu_cse.Base.{ℕ, zero, suc, ◌<◌, ◌≡◌, refl, sym, arith, inl, inr, Bool-cases, ◌==◌}
use osu_cse.Base.{[], ◌∷◌, ◌++◌, length, length-set, length-append, Option, none, some}
use mathlib.Core.Path.{subst}
use osu_cse.Timeval.{Timeval, from_micros, timeval_subtract}
use osu_cse.EarlyTimer.{
  Cell, Heap, cell, set_next, search, print_time_list, hand_on, delete_found, delete_timenode,
  insert, Timers, found, inserted, add_new, add_timenode, expire, elapsed, update_time_list,
}
use osu_cse.EarlyTimer.Links.{
  IsSame, IsSame-trans, set_delta-IsSame, print_time_list-IsSame, hand_on-IsSame,
}
use osu_cse.EarlyTimer.Backs.{
  IsBacked, HasForward, IsSame-IsBacked, unlink-IsBacked, push-IsBacked, behind-HasForward,
}
use osu_cse.EarlyTimer.Ranks.{
  IsRanked, IsIn, set_next-IsRanked, IsSame-IsRanked, push-IsRanked, shift, shift-IsRanked,
}
use osu_cse.EarlyTimer.Puts.{Option-cases}
use osu_cse.EarlyTimer.Inserts.{IsHeaded, insert-IsHeaded}

-- The links are ranked, and the list starts at a cell in use.
pub record IsRooted (h : Heap) (p : Option ℕ) : Type 0 where
  pub rank : ℕ → ℕ
  pub ranked : IsRanked rank (length h) h
  pub inside : IsIn (length h) p
  pub backed : IsBacked h

IsSame-IsRooted : (h h' : Heap) (p : Option ℕ) → IsSame h h' → IsRooted h p → IsRooted h' p
IsSame-IsRooted h h' p s v = record {
  rank = v.rank;
  ranked =
      subst (λ n. IsRanked v.rank n h') (sym s.size)
        (IsSame-IsRanked v.rank (length h) h h' s v.ranked);
  inside = subst (λ n. IsIn n p) (sym s.size) v.inside;
  backed = IsSame-IsBacked h h' s v.backed;
}

-- A pointer that a cell holds.
pub pointer-IsIn :
    (r : ℕ → ℕ) (h : Heap) (a : ℕ) → IsRanked r (length h) h → IsIn (length h) (cell h a).next
pointer-IsIn r h a v = elim (Option-cases (cell h a).next) [
  | inl e ↦ rw e tt
  | inr (b, e) ↦ rw e (v.next a b e).1
]

next-IsIn : (h : Heap) (p : Option ℕ) (a : ℕ) → IsRooted h p → IsIn (length h) (cell h a).next
next-IsIn h p a v = pointer-IsIn v.rank h a v.ranked

-- The cell that `forward` gives is linked past its old node.
unlink-IsRooted :
    (h : Heap) (p : Option ℕ) (a f : ℕ)
    → (cell h a).forward ≡ some f
    → IsRooted h p
    → IsRooted (set_next h f (cell h a).next) p
unlink-IsRooted h p a f link v = record {
  rank = v.rank;
  ranked =
      subst (λ n. IsRanked v.rank n (set_next h f (cell h a).next)) (sym (length-set h f _))
        (set_next-IsRanked v.rank (length h) h f (cell h a).next
          (λ b e.
            let (a_in, f_in, below) = v.ranked.forward a f link in
            let (_, b_in, above) = v.ranked.next a b e in (f_in, b_in, omega (arith, below, above)))
          v.ranked);
  inside = subst (λ n. IsIn n p) (sym (length-set h f _)) v.inside;
  backed = unlink-IsBacked h f a v.backed;
}

abbrev pub IsLeft : Option (Heap × Option ℕ) → Type 0
IsLeft none = ⊥
IsLeft (some (h, p)) = IsRooted h p

delete_found-IsLeft :
    (h : Heap) (p o : Option ℕ)
    → ((x : ℕ) → o ≡ some x → HasForward h x)
    → IsRooted h p
    → IsLeft (delete_found h p o)
delete_found-IsLeft h p none way v = IsSame-IsRooted h _ p (print_time_list-IsSame h p) v
delete_found-IsLeft h p (some a) way v =
    let (f, e) = way a refl in
    let unlinked : Heap = set_next h f (cell h a).next in
    let handed : Heap = hand_on unlinked (cell h a).next (cell h a).delta_time in
    rw e (
      IsSame-IsRooted unlinked (print_time_list handed p) p
        (IsSame-trans unlinked handed _
          (hand_on-IsSame unlinked (cell h a).next (cell h a).delta_time)
          (print_time_list-IsSame handed p))
        (unlink-IsRooted h p a f e v))

pub delete_timenode-IsLeft :
    (h : Heap) (a id : ℕ) → IsRooted h (some a) → IsLeft (delete_timenode h (some a) id)
unfolding delete_timenode
delete_timenode-IsLeft h a id v = elim (Bool-cases ((cell h a).id == id)) [
  | inl at_head ↦
      let handed : Heap = hand_on h (cell h a).next (cell h a).delta_time in
      rw at_head (
        IsSame-IsRooted h (print_time_list handed (cell h a).next) (cell h a).next
          (IsSame-trans h handed _ (hand_on-IsSame h (cell h a).next (cell h a).delta_time)
            (print_time_list-IsSame handed (cell h a).next))
          (record {
            rank = v.rank;
            ranked = v.ranked;
            inside = next-IsIn h (some a) a v;
            backed = v.backed;
          }))
  | inr behind ↦ rw behind (
      delete_found-IsLeft h (some a) (search (length h) h (some a) id)
        (λ x e. behind-HasForward (length h) h a id x v.backed behind e) v)
]

abbrev pub IsTimers : Timers → Type 0
IsTimers t = IsRooted t.heap t.head

expire-IsRooted :
    (fuel : ℕ) (h : Heap) (p : Option ℕ) (dtime : Timeval)
    → IsRooted h p
    → IsRooted (expire fuel h p dtime).0 (expire fuel h p dtime).1
unfolding expire
expire-IsRooted zero h p dtime v = v
expire-IsRooted (suc fuel) h none dtime v = v
expire-IsRooted (suc fuel) h (some a) dtime v =
    let test = timeval_subtract dtime (cell h a).delta_time in
    let passed = timeval_subtract dtime test.y in
    let stays = timeval_subtract test.y dtime in
    elim (Bool-cases test.negative) [
      | inl waits ↦ rw waits (IsSame-IsRooted h _ (some a) (set_delta-IsSame h a stays.result) v)
      | inr due ↦ rw due (
          expire-IsRooted fuel _ (cell h a).next passed.result (
            IsSame-IsRooted h _ (cell h a).next (set_delta-IsSame h a passed.y) (record {
              rank = v.rank;
              ranked = v.ranked;
              inside = next-IsIn h (some a) a v;
              backed = v.backed;
            })))
    ]

pub update_time_list-IsTimers :
    (t : Timers) (now : Timeval) → IsTimers t → IsTimers (update_time_list t now)
unfolding update_time_list
update_time_list-IsTimers t now v =
    expire-IsRooted (length t.heap) t.heap t.head (elapsed t.lasttime now) v

abbrev pub IsAdded : Option Timers → Type 0
IsAdded none = ⊥
IsAdded (some t) = IsTimers t

inserted-IsAdded :
    (t : Timers) (n : ℕ) (o : Option (Heap × ℕ)) → IsHeaded n o → IsAdded (inserted t o)
inserted-IsAdded t n none v = v
inserted-IsAdded t n (some (h, head)) ((rank, ranked, size, backed), inside) =
    IsSame-IsRooted h _ (some head) (print_time_list-IsSame h (some head)) (record {
      rank = rank;
      ranked = subst (λ m. IsRanked rank m h) (sym size) ranked;
      inside = subst (λ m. head < m) (sym size) inside;
      backed = backed;
    })

-- The ranks of the old cells, with the new one in the heap.
add_new-IsAdded :
    (t : Timers) (c : Cell) (now : Timeval)
    → c.next ≡ none
    → c.forward ≡ none
    → IsTimers t
    → IsAdded (add_new t (t.heap ++ (c ∷ [])) t.head now)
add_new-IsAdded t c now no_next no_forward v = go t.head v.inside
  where
    size : length (t.heap ++ (c ∷ [])) ≡ suc (length t.heap)
    size = omega (arith, length-append t.heap (c ∷ []))

    pushed : IsRanked v.rank (length t.heap) (t.heap ++ (c ∷ []))
    pushed = push-IsRanked v.rank (length t.heap) t.heap c no_next no_forward v.ranked

    backed : IsBacked (t.heap ++ (c ∷ []))
    backed = push-IsBacked t.heap c no_next no_forward v.backed

    go : (p : Option ℕ) → IsIn (length t.heap) p → IsAdded (add_new t (t.heap ++ (c ∷ [])) p now)
    go none inside = record {
      rank = shift v.rank (length t.heap) 0;
      ranked =
          subst (λ m. IsRanked (shift v.rank (length t.heap) 0) m (t.heap ++ (c ∷ []))) (sym size)
            (shift-IsRanked v.rank (length t.heap) 0 _ (omega arith) pushed);
      inside = omega (arith, size);
      backed = backed;
    }
    go (some head) inside =
        inserted-IsAdded t (length t.heap) (insert (t.heap ++ (c ∷ [])) (length t.heap) head) (
          insert-IsHeaded v.rank (length t.heap) (t.heap ++ (c ∷ [])) head pushed size inside
            backed)

pub add_timenode-IsAdded :
    (t : Timers) (id d : ℕ) (now : Timeval) → IsTimers t → IsAdded (add_timenode t id d now)
unfolding add_timenode
add_timenode-IsAdded t id d now v =
    elim (Bool-cases (found (search (length t.heap) t.heap t.head id))) [
      | inl there ↦ rw there v
      | inr absent ↦ rw absent (
          add_new-IsAdded t
            (record { id = id; delta_time = from_micros d; forward = none; next = none }) now refl
            refl v)
    ]
