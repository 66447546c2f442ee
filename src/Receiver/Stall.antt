-- ===== src/Receiver/Stall.antt =====
-- Two ways in which the receiver stops for good: a window that ends with the last block, and a
-- frame of zero bytes.
use mathlib.Core.Path.{subst}
use osu_cse.Base.{ℕ, zero, suc, ◌+◌, ◌-◌, ◌%◌, ◌<◌, ◌≡◌, refl, sym, ap, ◌∙◌, arith}
use osu_cse.Base.{true, inl, inr, Bool-cases, ◌==◌}
use osu_cse.Base.{List, [], ◌∷◌, ◌++◌, map, length, take, drop, length-set, lt→ltb}
use osu_cse.Base.{get_or-set_self}
use osu_cse.Base.Int.{ℤ, pos}
use osu_cse.Buffer.{Block, slots, window, slot, check_empty, clear}
use osu_cse.Buffer.Runs.{cyclic, complete}
use osu_cse.Receiver.{
  Window, done, first, forward, reads_outside, loop_over, slid, slid_wrapped, slide_wrapped, store,
}
use osu_cse.Receiver.{in_window, accept, receive, prepend, and_then}
use osu_cse.Receiver.Invariant.{IsWindow}
use osu_cse.Receiver.Forms.{waiting, ready, IsDelivery, IsWindow-waiting, first_back}
use osu_cse.Receiver.Near.{slide-slid, slid_some}
use osu_cse.Receiver.Far.{slid_wrapped_none}
use osu_cse.Receiver.Delivery.{stored, before_test, not_before_test, behind_test, accept-IsDelivery}

abbrev pub IsSmall : List (ℤ × Block) → Type 0
IsSmall [] = Unit
IsSmall ((seq, body) ∷ frames) = ((k : ℕ) × (seq ≡ pos k) × (k < slots)) × IsSmall frames

-- Once the window waits for frame 64, the branch for it runs over no frame.
slide_stuck :
    (old buf : List Block) (len : ℕ)
    → slide_wrapped (waiting old slots) buf len ≡ done (waiting buf slots) []
unfolding slide_wrapped forward reads_outside
slide_stuck old buf len =
    ap (λ k. loop_over buf len (slots - k) k (slid_wrapped (waiting old slots) buf len))
      (first_back slots)
    ∙ slid_wrapped_none old buf [] len slots

pub store_stuck_empty :
    (old : List Block) (k : ℕ) (body : Block) (len : ℕ)
    → check_empty (slot old k) ≡ true
    → store (waiting old slots) k body len
      ≡ done (waiting (stored (waiting old slots) k body) slots) []
unfolding store
store_stuck_empty old k body len gone =
    rw (gone, not_before_test slots (omega arith), behind_test slots (omega arith))
      (slide_stuck old (stored (waiting old slots) k body) len)

store_stuck :
    (old : List Block) (k : ℕ) (body : Block) (len : ℕ)
    → (buf : List Block) × (store (waiting old slots) k body len ≡ done (waiting buf slots) [])
      × (length buf ≡ length old)
unfolding store
store_stuck old k body len = elim (Bool-cases (check_empty (slot old k))) [
  | inl gone ↦
      (stored (waiting old slots) k body, store_stuck_empty old k body len gone, length-set old k _)
  | inr there ↦ (old, rw there, refl)
]

pub accept_stuck :
    (old : List Block) (k : ℕ) (body : Block) (len : ℕ)
    → k < slots
    → (buf : List Block) × (accept (waiting old slots) (pos k) body len
        ≡ done (waiting buf slots) [])
      × (length buf ≡ length old)
unfolding accept
accept_stuck old k body len h =
    let (buf, e, same) = store_stuck old k body len in
    elim (Bool-cases (in_window (waiting old slots) (pos k))) [
      | inl open_ ↦ (buf, rw (open_, lt→ltb k slots h) e, same)
      | inr shut ↦ (old, rw shut, refl)
    ]

receive_stuck :
    (frames : List (ℤ × Block)) (old : List Block)
    → IsSmall frames
    → (w : Window) × (receive (waiting old slots) frames ≡ done w [])
unfolding receive
receive_stuck [] old h = (waiting old slots, refl)
receive_stuck ((seq, body) ∷ frames) old ((k, e, lt), rest) =
    let (buf, taken, same) = accept_stuck old k body (length body) lt in
    let (w, after) = receive_stuck frames buf rest in
    (
      w,
      ap (λ q. and_then (accept (waiting old slots) q body (length body)) (λ x. receive x frames)) e
          ∙ ap (λ o. and_then o (λ x. receive x frames)) taken
          ∙ ap (prepend []) after,
    )

-- The frame that completes the window 44 to 63 brings the receiver there.
store_last :
    (old : List Block) (k : ℕ) (body : Block) (len : ℕ)
    → check_empty (slot old k) ≡ true
    → length old ≡ slots
    → length (complete (cyclic (stored (waiting old 44) k body) 44 window)) ≡ window
    → (buf : List Block) × (store (waiting old 44) k body len
        ≡ done
            (waiting buf slots)
            (map (take len) (complete (cyclic (stored (waiting old 44) k body) 44 window))))
unfolding store
store_last old k body len gone size full = (
  clear buf 44 (64 - 44),
  rw (gone, before_test 44 (omega arith))
      (slide-slid old buf len 44 (omega arith) (length-set old k _ ∙ size)
        ∙ ap (λ i. slid (waiting old 44) buf (map (take len) (complete (cyclic buf 44 window)), i))
            {y = 64} (omega (arith, full))
        ∙ slid_some old buf (map (take len) (complete (cyclic buf 44 window))) 44 64 (omega arith)
            (omega arith)),
)
  where
    buf : List Block
    buf = stored (waiting old 44) k body

module _ (k : ℕ) (body : Block) (len : ℕ) (frames : List (ℤ × Block)) where
  -- What is said of the window that takes the last frame, and of what comes after.
  abbrev pub IsStalled : Window → Type 0
  IsStalled w =
      (w' : Window) × (w'' : Window) × (accept w (pos k) body len
        ≡ done w' (map (take len) (ready w (stored w k body))))
      × (receive w' frames ≡ done w'' [])

  abbrev Completes : Window → Type 0
  Completes w =
      in_window w (pos k) ≡ true
      → check_empty (slot w.recvbuf k) ≡ true
      → length w.recvbuf ≡ slots
      → length (ready w (stored w k body)) ≡ window
      → IsStalled w

  waiting-Completes : (old : List Block) → k < slots → IsSmall frames → Completes (waiting old 44)
  unfolding accept
  waiting-Completes old small after open_ gone size full =
      let (buf, e) = store_last old k body len gone size (rw first_back at full) in
      let (w, rest) = receive_stuck frames buf after in
      (waiting buf slots, w, rw (open_, lt→ltb k slots small, first_back 44) e, rest)

-- If the frame that comes in at `lfr` 43 completes all of the frames 44 to 63, these are sent on,
-- and of whatever frames come after it, with numbers below 64, none is ever sent on.
pub stalls_forever :
    (w : Window) (k : ℕ) (body : Block) (len : ℕ) (frames : List (ℤ × Block))
    → IsWindow w
    → first w ≡ 44
    → k < slots
    → in_window w (pos k) ≡ true
    → check_empty (slot w.recvbuf k) ≡ true
    → length (ready w (stored w k body)) ≡ window
    → IsSmall frames
    → IsStalled k body len frames w
stalls_forever w k body len frames v at_44 small open_ gone full after =
    subst (Completes k body len frames) (sym (IsWindow-waiting w v ∙ ap (waiting w.recvbuf) at_44))
      (waiting-Completes k body len frames w.recvbuf small after) open_ gone v.size full

check_empty-drop :
    (n : ℕ) (block : Block) → check_empty block ≡ true → check_empty (drop n block) ≡ true
unfolding check_empty
check_empty-drop zero block h = h
check_empty-drop (suc n) [] h = refl
check_empty-drop (suc n) (x ∷ block) h = elim (Bool-cases (x == 0)) [
  | inl zero_byte ↦ check_empty-drop n block (rw zero_byte at h)
  | inr other ↦ absurd (ground arith)
]

check_empty-append :
    (xs ys : Block) → check_empty xs ≡ true → check_empty ys ≡ true → check_empty (xs ++ ys) ≡ true
unfolding check_empty
check_empty-append [] ys hx hy = hy
check_empty-append (x ∷ xs) ys hx hy = elim (Bool-cases (x == 0)) [
  | inl zero_byte ↦ rw zero_byte (check_empty-append xs ys (rw zero_byte at hx) hy)
  | inr other ↦ absurd (ground arith)
]

nothing_ready :
    (buf : List Block) (n m : ℕ)
    → check_empty (slot buf (n % slots)) ≡ true
    → complete (cyclic buf n (suc m)) ≡ []
unfolding cyclic complete
nothing_ready buf n m h = rw h

-- A frame of zero bytes that is waited for is taken, but nothing is sent on and the receiver goes on
-- waiting for it.
pub zero_frame_lost :
    (w : Window) (body : Block) (len : ℕ)
    → IsWindow w
    → first w < slots
    → in_window w (pos (first w)) ≡ true
    → check_empty (slot w.recvbuf (first w)) ≡ true
    → check_empty body ≡ true
    → (w' : Window) × (accept w (pos (first w)) body len ≡ done w' [])
      × (first w' % slots ≡ first w)
zero_frame_lost w body len v inside open_ gone zeros = (
  taken.next,
  taken.returns ∙ ap (λ l. done taken.next (map (take len) l)) none_ready,
  taken.moved ∙ ap (λ l. (first w + length l) % slots) none_ready ∙ omega arith,
)
  where
    taken : IsDelivery w (stored w (first w) body) len (accept w (pos (first w)) body len)
    taken = accept-IsDelivery w (first w) body len v inside inside open_ gone

    still_empty : check_empty (slot (stored w (first w) body) (first w % slots)) ≡ true
    still_empty =
        ap (λ k. check_empty (slot (stored w (first w) body) k)) {y = first w} (omega arith)
        ∙ ap check_empty (get_or-set_self w.recvbuf (first w) _ [] (rw v.size inside))
        ∙ check_empty-append body (drop (length body) (slot w.recvbuf (first w))) zeros
            (check_empty-drop (length body) (slot w.recvbuf (first w)) gone)

    none_ready : ready w (stored w (first w) body) ≡ []
    none_ready = nothing_ready (stored w (first w) body) (first w) 19 still_empty
