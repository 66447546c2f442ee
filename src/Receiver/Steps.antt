-- ===== src/Receiver/Steps.antt =====
-- What the receiver does with a frame of a file, whose block `j` comes as frame `j` modulo 64, while
-- its buffer holds blocks of this file.
use osu_cse.Base.{ℕ, zero, suc, ◌+◌, ◌%◌, ◌≤◌, ◌<◌, ◌≡◌, refl, sym, ap, ap₂, ◌∙◌, arith}
use osu_cse.Base.{true, false, inl, inr, Bool-cases, ltb, ◌⊎◌, lt→ltb}
use osu_cse.Base.{List, [], ◌∷◌, map, length, take}
use osu_cse.Base.Int.{pos, ◌+ℤ◌, ◌-ℤ◌}
use mathlib.Core.Path.{subst}
use osu_cse.Buffer.{Block, buff_size, slots, window, slot, check_empty}
use osu_cse.Buffer.Runs.{cyclic, complete, emptied, cyclic-same, emptied-same}
use osu_cse.Receiver.{Window, Outcome, done, fault, first, initial, in_window, store, accept}
use osu_cse.Receiver.Invariant.{IsWindow}
use osu_cse.Receiver.Forms.{
  waiting, ready, IsDelivery, IsWindow-waiting, waiting-IsWindow, run-le, first_back,
}
use osu_cse.Receiver.Delivery.{stored, accept-IsDelivery}
use osu_cse.Receiver.Stall.{store_stuck_empty}
use osu_cse.Receiver.Safety.{accept_there, accept_shut, first-le}
use osu_cse.Receiver.Row.{blocks_from, length-blocks_from}
use osu_cse.Receiver.Contents.{
  IsBody, IsRow, IsRow-complete, IsRow-emptied, IsRow-stored, IsRow-blank, IsRow-awaits,
  blank_awaits,
}

-- The window waits for block `n`, which is not there unless the receiver is stuck, and its buffer
-- holds blocks of the file.
pub record IsWaiting (f : ℕ → Block) (w : Window) (n : ℕ) : Type 0 where
  pub valid : IsWindow w
  pub place : first w % slots ≡ n % slots
  pub row : IsRow f w.recvbuf n
  pub awaits : first w < slots → check_empty (slot w.recvbuf (n % slots)) ≡ true

-- The blocks from `n` on are sent on, and the window waits for the block behind them.
abbrev pub IsNext : (ℕ → Block) → ℕ → Outcome → Type 0
IsNext f n fault = ⊥
IsNext f n (done w more) = IsWaiting f w (n + length more) × (more ≡ blocks_from f n (length more))

window_open :
    (n k : ℕ) (buf : List Block)
    → n ≤ slots
    → k < slots
    → in_window (waiting buf n) (pos k) ≡ true
    → ((n ≤ k) × (k < n + 20)) ⊎ (k + 44 < n)
unfolding in_window
window_open n k buf le small h = unfold ◌-ℤ◌ ◌+ℤ◌ in ground arith

-- Among frames that are neither too old nor too new the window holds those of the next 20 blocks.
in_window-near :
    (w : Window) (n j : ℕ)
    → IsWindow w
    → first w % slots ≡ n % slots
    → n ≤ j + 44
    → j < n + slots
    → in_window w (pos (j % slots)) ≡ true
    → (n ≤ j) × (j < n + window)
in_window-near w n j v place late early open_ = near (
    window_open (first w) (j % slots) w.recvbuf (first-le w v) (omega arith)
      (ap (λ x. in_window x (pos (j % slots))) (sym (IsWindow-waiting w v)) ∙ open_))
  where
    near :
        ((first w ≤ j % slots) × (j % slots < first w + 20)) ⊎ (j % slots + 44 < first w)
        → (n ≤ j) × (j < n + window)
    near (inl (low, high)) =
        (omega (arith, place, first-le w v), omega (arith, place, first-le w v))
    near (inr round_) = (omega (arith, place, first-le w v), omega (arith, place, first-le w v))

map-take :
    (f : ℕ → Block) (len n i : ℕ)
    → ((j : ℕ) → length (f j) ≡ len)
    → map (take len) (blocks_from f i n) ≡ blocks_from f i n
map-take f len zero i full = refl
map-take f len (suc n) i full =
    ap₂ ◌∷◌ (ap (λ k. take k (f i)) (sym (full i)) ∙ take_all (f i)) (map-take f len n (suc i) full)
  where
    take_all : (xs : Block) → take (length xs) xs ≡ xs
    take_all [] = refl
    take_all (x ∷ xs) = ap (λ l. x ∷ l) (take_all xs)

module _ (f : ℕ → Block) (full : (j : ℕ) → length (f j) ≡ buff_size) where
  IsNext-unchanged : (w : Window) (n : ℕ) → IsWaiting f w n → IsNext f n (done w [])
  IsNext-unchanged w n h = (subst (IsWaiting f w) (omega arith) h, refl)

  -- A delivery from a buffer that holds blocks of the file.
  IsNext-delivery :
      (w : Window) (buf : List Block) (n : ℕ) (out : Outcome)
      → first w % slots ≡ n % slots
      → IsRow f buf n
      → IsDelivery w buf buff_size out
      → IsNext f n out
  IsNext-delivery w buf n out place row d =
      subst (IsNext f n) (sym (d.returns ∙ ap (done d.next) sent_row)) (
        record {
          valid = d.valid;
          place =
              omega (arith, d.moved, place, ap length same_run, ap length sent_row, sent_length);
          row = subst (IsRow f d.next.recvbuf) (omega (arith, sent_length)) (
              subst (λ b. IsRow f b (n + m)) (sym left)
                (IsRow-emptied f buf n m row (run-le buf n window)));
          awaits = λ inside.
              subst (λ b. check_empty (slot b ((n + length (blocks_from f n m)) % slots)) ≡ true)
                (sym left)
                (subst (λ l. check_empty (slot (emptied buf n m) ((n + l) % slots)) ≡ true)
                  (sym sent_length) (IsRow-awaits f buf n row));
        },
        ap (blocks_from f n) (sym sent_length),
      )
    where
      m : ℕ
      m = length (complete (cyclic buf n window))

      same_run : ready w buf ≡ complete (cyclic buf n window)
      same_run = ap complete (cyclic-same buf (first w) n window place)

      sent_row : map (take buff_size) (ready w buf) ≡ blocks_from f n m
      sent_row =
          ap (map (take buff_size)) (same_run ∙ IsRow-complete f buf n row)
          ∙ map-take f buff_size m n full

      sent_length : length (blocks_from f n m) ≡ m
      sent_length = length-blocks_from f m n

      left : d.next.recvbuf ≡ emptied buf n m
      left =
          d.gone
          ∙ emptied-same (length (ready w buf)) (first w) n buf place
          ∙ ap (λ l. emptied buf n (length l)) same_run

  IsNext-stuck :
      (w : Window) (k n : ℕ) (body : Block) (len : ℕ)
      → IsWindow w
      → first w ≡ slots
      → first w % slots ≡ n % slots
      → k < slots
      → in_window w (pos k) ≡ true
      → check_empty (slot w.recvbuf k) ≡ true
      → IsRow f (stored w k body) n
      → IsNext f n (accept w (pos k) body len)
  unfolding accept
  IsNext-stuck w k n body len v last place small open_ gone row = subst (IsNext f n) (sym outcome) (
      IsNext-unchanged (waiting (stored w k body) slots) n record {
        valid = waiting-IsWindow (stored w k body) slots row.size (omega arith);
        place = ap (λ k. k % slots) (first_back slots ∙ sym last) ∙ place;
        row = row;
        awaits = λ inside. absurd (omega (arith, first_back slots, inside));
      })
    where
      same : w ≡ waiting w.recvbuf slots
      same = IsWindow-waiting w v ∙ ap (waiting w.recvbuf) last

      outcome : accept w (pos k) body len ≡ done (waiting (stored w k body) slots) []
      outcome =
          rw (open_, lt→ltb k slots small)
            (ap (λ x. store x k body len) same ∙ store_stuck_empty w.recvbuf k body len gone)

  pub accept-IsNext :
      (w : Window) (n j : ℕ) (body : Block)
      → IsBody f j body
      → IsWaiting f w n
      → n ≤ j + 44
      → j < n + slots
      → IsNext f n (accept w (pos (j % slots)) body (length body))
  accept-IsNext w n j body of h late early = elim (Bool-cases (in_window w (pos k))) [
    | inr shut ↦
        subst (IsNext f n) (sym (accept_shut w (pos k) body len shut)) (IsNext-unchanged w n h)
    | inl open_ ↦ elim (Bool-cases (check_empty (slot w.recvbuf k))) [
      | inr there ↦
          subst (IsNext f n) (sym (accept_there w k body len small open_ there))
            (IsNext-unchanged w n h)
      | inl gone ↦ elim (Bool-cases (ltb (first w) slots)) [
        | inr past ↦
            IsNext-stuck w k n body len h.valid (last past) h.place small open_ gone (row_of open_)
        | inl inside ↦
            IsNext-delivery w (stored w k body) n (accept w (pos k) body len) h.place (row_of open_)
              (subst (λ l. IsDelivery w (stored w k body) l (accept w (pos k) body len)) of.0
                (accept-IsDelivery w k body len h.valid (below inside) small open_ gone))
      ]
    ]
  ]
    where
      k : ℕ
      k = j % slots

      len : ℕ
      len = length body

      small : k < slots
      small = omega arith

      last : ltb (first w) slots ≡ false → first w ≡ slots
      last past = ground (arith, first-le w h.valid)

      below : ltb (first w) slots ≡ true → first w < slots
      below inside = ground arith

      row_of : in_window w (pos k) ≡ true → IsRow f (stored w k body) n
      row_of open_ =
          let (low, high) = in_window-near w n j h.valid h.place late early open_ in
          IsRow-stored f w.recvbuf n j body of h.row low high

  pub initial-IsWaiting : IsWaiting f initial 0
  unfolding ◌+ℤ◌
  initial-IsWaiting = record {
    valid = record { size = refl; low = omega arith; high = omega arith; span = refl };
    place = refl;
    row = IsRow-blank f;
    awaits = λ inside. blank_awaits;
  }
