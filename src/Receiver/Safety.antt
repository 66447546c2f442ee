-- ===== src/Receiver/Safety.antt =====
-- Which frames keep the receiver inside its buffer.
use mathlib.Core.Path.{subst}
use osu_cse.Base.{ℕ, ◌≤◌, ◌<◌, ◌≡◌, refl, sym, ap, ◌∙◌, arith, true, false, inl, inr}
use osu_cse.Base.{Bool-cases, ltb, List, [], ◌∷◌, ◌++◌, length, lt→ltb}
use osu_cse.Base.Int.{ℤ, pos, pos_part, ◌≤ℤ◌, int_laws, parts_apart, ◌+ℤ◌, ◌-ℤ◌}
use osu_cse.Buffer.{Block, slots, slot, check_empty}
use osu_cse.Receiver.{
  Window, Outcome, done, fault, first, in_window, store, accept, receive, and_then, prepend,
}
use osu_cse.Receiver.Invariant.{IsWindow}
use osu_cse.Receiver.Forms.{waiting, IsWindow-waiting, waiting-IsWindow}
use osu_cse.Receiver.Delivery.{accept-IsDelivery}
use osu_cse.Receiver.Stall.{IsSmall, accept_stuck}

-- The outcome is a window in which `lfr` and `laf` keep their relation.
abbrev pub IsSafe : Outcome → Type 0
IsSafe out = (w : Window) × (sent : List Block) × (out ≡ done w sent) × IsWindow w

pub first-le : (w : Window) → IsWindow w → first w ≤ slots
first-le w v = go w.lfr v.high
  where
    go : (l : ℤ) → l ≤ℤ pos 63 → pos_part (l +ℤ pos 1) ≤ slots
    go l h = omega (int_laws, parts_apart (l +ℤ pos 1))

accept_open :
    (w : Window) (k : ℕ) (body : Block) (len : ℕ)
    → IsWindow w
    → k < slots
    → in_window w (pos k) ≡ true
    → check_empty (slot w.recvbuf k) ≡ true
    → IsSafe (accept w (pos k) body len)
accept_open w k body len v small open_ gone = elim (Bool-cases (ltb (first w) slots)) [
  | inl inside ↦
      let d = accept-IsDelivery w k body len v (below inside) small open_ gone in
      (d.next, _, d.returns, d.valid)
  | inr past ↦
      subst (λ x. IsSafe (accept x (pos k) body len))
        (sym (IsWindow-waiting w v ∙ ap (waiting w.recvbuf) (last past)))
        (stuck (accept_stuck w.recvbuf k body len small))
]
  where
    below : ltb (first w) slots ≡ true → first w < slots
    below h = ground arith

    last : ltb (first w) slots ≡ false → first w ≡ slots
    last h = ground (arith, first-le w v)

    stuck :
        (buf : List Block) × (accept (waiting w.recvbuf slots) (pos k) body len
            ≡ done (waiting buf slots) [])
          × (length buf ≡ length w.recvbuf)
        → IsSafe (accept (waiting w.recvbuf slots) (pos k) body len)
    stuck (buf, e, same) =
        (waiting buf slots, [], e, waiting-IsWindow buf slots (same ∙ v.size) (omega arith))

pub accept_there :
    (w : Window) (k : ℕ) (body : Block) (len : ℕ)
    → k < slots
    → in_window w (pos k) ≡ true
    → check_empty (slot w.recvbuf k) ≡ false
    → accept w (pos k) body len ≡ done w []
unfolding accept store
accept_there w k body len small open_ there = rw (open_, lt→ltb k slots small, there)

pub accept_shut :
    (w : Window) (seq : ℤ) (body : Block) (len : ℕ)
    → in_window w seq ≡ false
    → accept w seq body len ≡ done w []
unfolding accept
accept_shut w seq body len shut = rw shut

accept-IsSafe :
    (w : Window) (k : ℕ) (body : Block) (len : ℕ)
    → IsWindow w
    → k < slots
    → IsSafe (accept w (pos k) body len)
accept-IsSafe w k body len v small = elim (Bool-cases (in_window w (pos k))) [
  | inl open_ ↦ elim (Bool-cases (check_empty (slot w.recvbuf k))) [
    | inl gone ↦ accept_open w k body len v small open_ gone
    | inr there ↦ (w, [], accept_there w k body len small open_ there, v)
  ]
  | inr shut ↦ (w, [], accept_shut w (pos k) body len shut, v)
]

-- From a window in which `lfr` and `laf` are in their relation, any frames with numbers below 64,
-- in any order and with repeats, are handled with no access outside the buffer, and the relation
-- holds again after them.
pub receive-IsSafe :
    (frames : List (ℤ × Block)) (w : Window)
    → IsWindow w
    → IsSmall frames
    → IsSafe (receive w frames)
unfolding receive
receive-IsSafe [] w v h = (w, [], refl, v)
receive-IsSafe ((seq, body) ∷ frames) w v ((k, e, small), rest) =
    let (w', sent, taken, v') = accept-IsSafe w k body (length body) v small in
    let (w'', more, after, v'') = receive-IsSafe frames w' v' rest in
    (
      w'',
      sent ++ more,
      ap (λ q. and_then (accept w q body (length body)) (λ x. receive x frames)) e
          ∙ ap (λ o. and_then o (λ x. receive x frames)) taken
          ∙ ap (prepend sent) after,
      v'',
    )

wide_open :
    (n k : ℕ) (old : List Block)
    → 44 < n
    → n ≤ slots
    → slots ≤ k
    → in_window (waiting old n) (pos k) ≡ true
unfolding in_window
wide_open n k old far le past = unfold ◌-ℤ◌ ◌+ℤ◌ in ground arith

-- While the window goes round the end of the buffer, a frame number of 64 or more, which the
-- checksum lets through, is taken for one in the window and makes the receiver write outside the buffer.
pub large_frame_faults :
    (w : Window) (k : ℕ) (body : Block) (len : ℕ)
    → IsWindow w
    → 44 < first w
    → slots ≤ k
    → accept w (pos k) body len ≡ fault
unfolding accept
large_frame_faults w k body len v far past = rw (
  ap (λ x. in_window x (pos k)) (IsWindow-waiting w v)
      ∙ wide_open (first w) k w.recvbuf far (first-le w v) past,
  not_below,
)
  where
    not_below : ltb k slots ≡ false
    not_below = ground arith
