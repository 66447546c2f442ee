-- ===== src/Timer/Pending.antt =====
-- What becomes of the entry of one timer while the list works.
use osu_cse.Base.{ℕ, ◌≡◌, ◌≢◌, refl, sym, ap, ◌∙◌, arith, true, false, ◌==◌, ◌&&◌}
use osu_cse.Base.{inl, inr, ◌⊎◌, Bool-cases, List, [], ◌∷◌, map}
use osu_cse.Base.Int.{ℤ, pos, pos_part, neg_part, ◌+ℤ◌, ◌≤ℤ◌, int_laws}
use mathlib.Core.Path.{subst}
use mathlib.Core.List.{Memᴰ}
use mathlib.Core.List.Memᴰ.{
  head, tail, not-nil, cases_cons, append_left, append_right, append_cases, map as Memᴰ_map,
}
use osu_cse.Timeval.{Timeval}
use osu_cse.Timeval.Laws.{micros, micros-timeval_add}
use osu_cse.Timer.{
  TimeNode, Timers, find_timenode, add_timenode, hand_on, remove_node, delete_timenode, expire,
  is_zero, update_time_list,
}
use osu_cse.Timer.Deadlines.{deadlines, AllFrom, IsOrdered}
use osu_cse.Timer.Insertion.{IsInserted, start_of, add_timenode-IsInserted}
use osu_cse.Timer.Removal.{without, deadlines-delete_timenode}
use osu_cse.Timer.Expiry.{
  test, tested, stays, did_stay, passed, expire-stop, expire-pass, update_time_list-IsExpired,
}

-- The clock was read.
abbrev pub IsRead : Timeval → Type 0
IsRead t = (is_zero t.tv_sec && is_zero t.tv_usec) ≡ false

-- There is an entry of that id, due by `due` at the latest.
abbrev pub HasEntry : ℕ → ℤ → List (ℕ × ℤ) → Type 0
HasEntry id due l = (at : ℤ) × Memᴰ (id, at) l × (at ≤ℤ due)

pub record IsPending (id : ℕ) (due : ℤ) (t : Timers) : Type 0 where
  pub entry : HasEntry id due (deadlines (micros t.lasttime) t.nodes)
  pub ordered : IsOrdered t.nodes
  pub read : IsRead t.lasttime

expire-IsOrdered :
    (l : List TimeNode) (dtime : Timeval) → IsOrdered l → IsOrdered (expire dtime l).1
expire-IsOrdered [] dtime o = unfold expire in tt
expire-IsOrdered (node ∷ rest) dtime o = elim (Bool-cases (test dtime node rest).negative) [
  | inl neg ↦ rw (expire-stop dtime node rest neg) (
    waits (micros (test dtime node rest).y) (micros node.delta_time) (micros dtime)
        (micros (stays dtime node rest).result) (tested dtime node rest).kept
        ((tested dtime node rest).if_negative neg) (did_stay dtime node rest).exact,
    o.1,
  )
  | inr non ↦
      rw (expire-pass dtime node rest non)
        (expire-IsOrdered rest (passed dtime node rest).result o.1)
]
  where
    waits : (y n d r : ℤ) → y ≡ n → d ≤ℤ n → r +ℤ d ≡ y → pos 0 ≤ℤ r
    waits y n d r kept less exact =
        omega (int_laws, less, ap pos_part (exact ∙ kept), ap neg_part (exact ∙ kept))

remove_node-IsOrdered : (l : List TimeNode) (id : ℕ) → IsOrdered l → IsOrdered (remove_node l id)
unfolding remove_node
remove_node-IsOrdered [] id o = tt
remove_node-IsOrdered (node ∷ rest) id o = elim (Bool-cases (node.id == id)) [
  | inl same ↦ rw same (handed rest o.1)
  | inr other ↦ rw other (o.0, remove_node-IsOrdered rest id o.1)
]
  where
    sum : (a b : ℤ) → pos 0 ≤ℤ a → pos 0 ≤ℤ b → pos 0 ≤ℤ a +ℤ b
    sum a b ha hb = omega (int_laws, ha, hb)

    handed : (rest : List TimeNode) → IsOrdered rest → IsOrdered (hand_on node.delta_time rest)
    handed [] o' = tt
    handed (next ∷ more) o' =
        unfold hand_on in
        (
          subst (λ m. pos 0 ≤ℤ m) (sym (micros-timeval_add next.delta_time node.delta_time))
              (sum _ _ o'.0 o.0),
          o'.1,
        )

delete_timenode-IsOrdered :
    (l : List TimeNode) (id : ℕ) → IsOrdered l → IsOrdered (delete_timenode l id)
unfolding delete_timenode
delete_timenode-IsOrdered l id o = elim (Bool-cases (find_timenode l id)) [
  | inl found ↦ rw found (remove_node-IsOrdered l id o)
  | inr absent ↦ rw absent o
]

without-keeps :
    (id other : ℕ) (at : ℤ) (l : List (ℕ × ℤ))
    → other ≢ id
    → Memᴰ (id, at) l
    → Memᴰ (id, at) (without other l)
without-keeps id other at [] differs m = absurd (not-nil m)
without-keeps id other at ((i, due) ∷ rest) differs m = elim (cases_cons m) [
  | inl e ↦ elim (Bool-cases (i == other)) [
    | inl same ↦ absurd (clash i (ap (λ x. x.0) e) same)
    | inr not_same ↦ rw not_same (head e)
  ]
  | inr later ↦ elim (Bool-cases (i == other)) [
    | inl same ↦ rw same later
    | inr not_same ↦ rw not_same (tail (without-keeps id other at rest differs later))
  ]
]
  where
    clash : (i : ℕ) → id ≡ i → (i == other) ≡ true → ⊥
    clash i e same = ground arith

-- Another timer is cancelled.
pub delete_timenode-IsPending :
    (id other : ℕ) (due : ℤ) (t : Timers)
    → other ≢ id
    → IsPending id due t
    → IsPending id due (record t { nodes = delete_timenode t.nodes other })
delete_timenode-IsPending id other due t differs h = record {
  entry = (
    h.entry.0,
    subst (Memᴰ (id, h.entry.0)) (sym (deadlines-delete_timenode (micros t.lasttime) t.nodes other))
        (without-keeps id other h.entry.0 _ differs h.entry.1),
    h.entry.2,
  );
  ordered = delete_timenode-IsOrdered t.nodes other h.ordered;
  read = h.read;
}

inserted-keeps :
    (x : ℕ × ℤ) (id : ℕ) (due : ℤ) (before after : List (ℕ × ℤ))
    → IsInserted id due before after
    → Memᴰ x before
    → Memᴰ x after
inserted-keeps x id due before after i m =
    subst (Memᴰ x) (sym i.is) (elim (append_cases i.front (subst (Memᴰ x) i.was m)) [
      | inl early ↦ append_left ((id, due) ∷ i.back) early
      | inr late ↦ append_right i.front (tail late)
    ])

add_timenode-found :
    (t : Timers) (id d : ℕ) (now : Timeval)
    → find_timenode t.nodes id ≡ true
    → add_timenode t id d now ≡ t
unfolding add_timenode
add_timenode-found t id d now found = rw found refl

same_clock :
    (node : TimeNode) (rest : List TimeNode) (last : Timeval) (id d : ℕ) (now : Timeval)
    → find_timenode (node ∷ rest) id ≡ false
    → (add_timenode (record { nodes = node ∷ rest; lasttime = last }) id d now).lasttime ≡ last
unfolding add_timenode
same_clock node rest last id d now fresh = rw fresh refl

-- A timer is started, this one again or another.
pub add_timenode-IsPending :
    (id other d : ℕ) (due : ℤ) (t : Timers) (now : Timeval)
    → IsPending id due t
    → IsPending id due (add_timenode t other d now)
add_timenode-IsPending id other d due t now h = elim (Bool-cases (find_timenode t.nodes other)) [
  | inl found ↦ subst (IsPending id due) (sym (add_timenode-found t other d now found)) h
  | inr fresh ↦ go t.nodes t.lasttime fresh h
]
  where
    go :
        (nodes : List TimeNode) (last : Timeval)
        → find_timenode nodes other ≡ false
        → IsPending id due (record { nodes = nodes; lasttime = last })
        → IsPending id due (add_timenode (record { nodes = nodes; lasttime = last }) other d now)
    go [] last fresh h = absurd (not-nil h.entry.1)
    go (node ∷ rest) last fresh h =
        let t : Timers = record { nodes = node ∷ rest; lasttime = last } in
        let i = add_timenode-IsInserted t other d now fresh h.ordered in
        let kept : start_of t other d now ≡ micros last =
          ap micros (same_clock node rest last other d now fresh) in
        record {
          entry = (
            h.entry.0,
            inserted-keeps (id, h.entry.0) _ _ _ _ i.0
                (subst (λ b. Memᴰ (id, h.entry.0) (deadlines b (node ∷ rest))) (sym kept)
                  h.entry.1),
            h.entry.2,
          );
          ordered = i.1;
          read = subst IsRead (sym (same_clock node rest last other d now fresh)) h.read;
        }

-- A timer that is not in the list is started.
pub started-IsPending :
    (id d : ℕ) (t : Timers) (now : Timeval)
    → find_timenode t.nodes id ≡ false
    → IsOrdered t.nodes
    → IsRead (add_timenode t id d now).lasttime
    → IsPending id (start_of t id d now +ℤ pos d) (add_timenode t id d now)
started-IsPending id d t now fresh o read =
    let i = add_timenode-IsInserted t id d now fresh o in
    record {
      entry = (
        start_of t id d now +ℤ pos d,
        subst (Memᴰ _) (sym i.0.is) (append_right i.0.front (head refl)),
        same (start_of t id d now +ℤ pos d),
      );
      ordered = i.1;
      read = read;
    }
  where
    same : (a : ℤ) → a ≤ℤ a
    same a = omega int_laws

AllFrom-member : (x : ℕ × ℤ) (now : ℤ) (l : List (ℕ × ℤ)) → AllFrom now l → Memᴰ x l → now ≤ℤ x.1
AllFrom-member x now [] all m = absurd (not-nil m)
AllFrom-member x now ((i, due) ∷ rest) all m = elim (cases_cons m) [
  | inl e ↦ subst (λ z. now ≤ℤ z) (sym (ap (λ x. x.1) e)) all.0
  | inr later ↦ AllFrom-member x now rest all.1 later
]

-- When the time is taken off the list, the timer is asked for, or it stays and is not due yet.
pub update_time_list-IsPending :
    (id : ℕ) (due : ℤ) (t : Timers) (now : Timeval)
    → IsRead now
    → IsPending id due t
    → Memᴰ id (update_time_list t now).0
      ⊎ (IsPending id due (update_time_list t now).1 × (micros now ≤ℤ due))
unfolding update_time_list
update_time_list-IsPending id due t now read h =
    let e = update_time_list-IsExpired t now h.ordered h.read in
    elim (append_cases e.front (subst (Memᴰ (id, h.entry.0)) e.was h.entry.1)) [
      | inl early ↦ inl (subst (Memᴰ id) (sym e.sent) (map_member early))
      | inr late ↦ inr (
        record {
          entry = (h.entry.0, late, h.entry.2);
          ordered = expire-IsOrdered t.nodes _ h.ordered;
          read = read;
        },
        up_to (micros now) h.entry.0 due
            (AllFrom-member (id, h.entry.0) (micros now) _ e.waiting late) h.entry.2,
      )
    ]
  where
    map_member : {l : List (ℕ × ℤ)} → Memᴰ (id, h.entry.0) l → Memᴰ id (map (λ entry. entry.0) l)
    map_member m = Memᴰ_map (λ (entry : ℕ × ℤ). entry.0) m

    up_to : (a b c : ℤ) → a ≤ℤ b → b ≤ℤ c → a ≤ℤ c
    up_to a b c h k = omega (int_laws, h, k)
