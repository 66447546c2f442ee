-- ===== src/Receiver/Delivery.antt =====
-- What the receiver does with a frame.
use osu_cse.Base.{ℕ, ◌≤◌, ◌<◌, ◌≡◌, sym, ◌∙◌, arith}
use osu_cse.Base.{true, false, inl, inr, Bool-cases, ltb}
use osu_cse.Base.{List, length, set, length-set, lt→ltb}
use osu_cse.Base.Int.{pos, ◌+ℤ◌, ◌-ℤ◌, ltb_ℤ}
use mathlib.Core.Path.{subst}
use osu_cse.Buffer.{Block, slots, slot, check_empty, overlay}
use osu_cse.Receiver.{Window, first, store, in_window, accept}
use osu_cse.Receiver.Invariant.{IsWindow}
use osu_cse.Receiver.Forms.{waiting, laf_of, IsDelivery, IsWindow-waiting}
use osu_cse.Receiver.Near.{slide_near}
use osu_cse.Receiver.Far.{slide_far}

-- The buffer with the body of frame `k` in its block.
abbrev pub stored : Window → ℕ → Block → List Block
stored w k body = set w.recvbuf k (overlay body (slot w.recvbuf k))

pub before_test : (n : ℕ) → n ≤ 44 → ltb_ℤ (pos n -ℤ pos 1) (laf_of n) ≡ true
before_test n h = unfold ◌-ℤ◌ ◌+ℤ◌ in ground arith

pub not_before_test : (n : ℕ) → 44 < n → ltb_ℤ (pos n -ℤ pos 1) (laf_of n) ≡ false
not_before_test n h = unfold ◌-ℤ◌ ◌+ℤ◌ in ground arith

pub behind_test : (n : ℕ) → 44 < n → ltb_ℤ (laf_of n) (pos n -ℤ pos 1) ≡ true
behind_test n h = unfold ◌-ℤ◌ ◌+ℤ◌ in ground arith

store_waiting :
    (old : List Block) (n k : ℕ) (body : Block) (len : ℕ)
    → length old ≡ slots
    → n < slots
    → check_empty (slot old k) ≡ true
    → IsDelivery
        (waiting old n)
        (stored (waiting old n) k body)
        len
        (store (waiting old n) k body len)
unfolding store
store_waiting old n k body len size inside gone = elim (Bool-cases (ltb 44 n)) [
  | inl far ↦
      rw (gone, not_before_test n (above far), behind_test n (above far))
        (slide_far old buf len n (above far) inside size')
  | inr near ↦ rw (gone, before_test n (below near)) (slide_near old buf len n (below near) size')
]
  where
    buf : List Block
    buf = stored (waiting old n) k body

    size' : length buf ≡ slots
    size' = length-set old k _ ∙ size

    above : ltb 44 n ≡ true → 44 < n
    above h = ground arith

    below : ltb 44 n ≡ false → n ≤ 44
    below h = ground arith

store_lem :
    (w : Window) (k : ℕ) (body : Block) (len : ℕ)
    → IsWindow w
    → first w < slots
    → check_empty (slot w.recvbuf k) ≡ true
    → IsDelivery w (stored w k body) len (store w k body len)
store_lem w k body len v inside gone =
    subst (λ x. IsDelivery x (stored x k body) len (store x k body len))
      (sym (IsWindow-waiting w v)) (store_waiting w.recvbuf (first w) k body len v.size inside gone)

-- A frame number below 64 that is in the window and whose block is empty: unless the receiver waits
-- past the last block, the frame is stored, the longest run of stored frames from `lfr + 1` on,
-- going round the end of the buffer, is sent to ftps in order and its blocks are emptied, the
-- receiver then waits for the frame behind that run (modulo 64), and `lfr` and `laf` stay in their
-- relation.
pub accept-IsDelivery :
    (w : Window) (k : ℕ) (body : Block) (len : ℕ)
    → IsWindow w
    → first w < slots
    → k < slots
    → in_window w (pos k) ≡ true
    → check_empty (slot w.recvbuf k) ≡ true
    → IsDelivery w (stored w k body) len (accept w (pos k) body len)
unfolding accept
accept-IsDelivery w k body len v inside small open_ gone =
    rw (open_, lt→ltb k slots small) (store_lem w k body len v inside gone)
