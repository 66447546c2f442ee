-- ===== src/Receiver.antt =====
-- The receive window in `server()` of tcpd.c: what is done with the sequence number and the body
-- of a packet that passed its checksum.
pub mod Invariant
pub mod Forms
pub mod Near
pub mod Far
pub mod Delivery
pub mod Stall
pub mod Safety
pub mod Row
pub mod Contents
pub mod Steps
pub mod Order
pub mod Progress
mod Tests
use osu_cse.Base.{ℕ, zero, suc, ◌+◌, ◌-◌, Bool, true, false, ◌&&◌, ◌||◌, ◌==◌, ltb, if◌then◌else◌}
use osu_cse.Base.{List, [], ◌∷◌, ◌++◌, length, set, take, replicate}
use osu_cse.Base.Int.{ℤ, pos, negsuc, pos_part, neg_part, ◌+ℤ◌, ◌-ℤ◌, ltb_ℤ, leb_ℤ}
use osu_cse.Buffer.{Block, slots, window, blank, check_empty, slot, overlay, clear}

-- `recvbuf`, `lfr` (largest frame received) and `laf` (largest acceptable frame).
pub record Window : Type 0 where
  pub recvbuf : List Block
  pub lfr : ℤ
  pub laf : ℤ

-- What `server` starts with.
abbrev pub initial : Window
initial = record { recvbuf = replicate slots blank; lfr = negsuc 0; laf = pos 19 }

-- The new window, with the blocks sent to ftps in order; `fault` is an access outside `recvbuf`.
pub data Outcome : Type 0 where
  done : Window → List Block → Outcome
  fault : Outcome

unfoldable pub in_window : Window → ℤ → Bool
in_window w seq =
    (leb_ℤ w.lfr w.laf && (ltb_ℤ w.lfr seq && leb_ℤ seq w.laf))
    || (ltb_ℤ w.laf w.lfr && (ltb_ℤ w.lfr seq || leb_ℤ seq w.laf))

-- The loop `for (i = …; …; i++)` with `left` rounds to go: it sends the first `len` bytes of each
-- block until one is empty, and ends with the blocks sent and the last `i`.
unfoldable pub forward : List Block → ℕ → ℕ → ℕ → List Block × ℕ
forward buf len zero i = ([], i)
forward buf len (suc left) i =
    let (sent, j) = forward buf len left (suc i) in
    if check_empty (slot buf i) then ([], i) else (take len (slot buf i) ∷ sent, j)

-- Whether that loop tests a block outside `recvbuf`.
unfoldable pub reads_outside : List Block → ℕ → ℕ → Bool
reads_outside buf zero i = false
reads_outside buf (suc left) i =
    let further = reads_outside buf left (suc i) in
    if ltb i slots then (if check_empty (slot buf i) then false else further) else true

-- The loop with what follows it, unless it leads outside `recvbuf`.
abbrev pub loop_over : List Block → ℕ → ℕ → ℕ → (List Block × ℕ → Outcome) → Outcome
loop_over buf len left i rest =
    if reads_outside buf left i then fault else rest (forward buf len left i)

-- `lfr + 1`, the frame that is waited for.
abbrev pub first : Window → ℕ
first w = pos_part (w.lfr +ℤ pos 1)

-- `if (lfr > 63) lfr = -1;`
unfoldable pub limit_lfr : ℤ → ℤ
limit_lfr l = if ltb_ℤ (pos 63) l then negsuc 0 else l

-- `if (laf > 63) laf = laf - 64;`
unfoldable pub wrap_laf : ℤ → ℤ
wrap_laf l = if ltb_ℤ (pos 63) l then l -ℤ pos 64 else l

-- The branch `laf > lfr` after its loop, with the blocks sent and the last `i`.
unfoldable pub slid : Window → List Block → List Block × ℕ → Outcome
slid w buf (sent, i) =
    let l = limit_lfr (pos i -ℤ pos 1) in
    if i == first w
    then done (record w { recvbuf = buf }) sent
    else done
        (record {
          recvbuf = clear buf (first w) (i - first w);
          lfr = l;
          laf = wrap_laf (l +ℤ pos window);
        })
        sent

-- The branch `laf > lfr`.
unfoldable pub slide : Window → List Block → ℕ → Outcome
slide w buf len = loop_over buf len (pos_part (w.laf -ℤ w.lfr)) (first w) (slid w buf)

-- The end of the branch `laf < lfr` after its second loop, over the frames from 0 on; `before` are
-- the blocks sent by the first.
pub slid_over : List Block → List Block → List Block × ℕ → Outcome
slid_over buf before (sent, i) =
    let l = if i == 0 then negsuc 0 else pos i -ℤ pos 1 in
    done (record { recvbuf = clear buf 0 i; lfr = l; laf = l +ℤ pos window }) (before ++ sent)

-- The branch `laf < lfr` after its first loop, over the frames up to the end of the buffer.
pub slid_wrapped : Window → List Block → ℕ → List Block × ℕ → Outcome
slid_wrapped w buf len (sent, i) =
    let cleared = clear buf (first w) (i - first w) in
    if i == first w
    then done (record w { recvbuf = buf }) sent
    else if ltb i slots
    then done
        (record {
          recvbuf = cleared;
          lfr = pos i -ℤ pos 1;
          laf = w.laf +ℤ (pos i -ℤ w.lfr -ℤ pos 1);
        })
        sent
    else loop_over cleared len (pos_part (w.laf +ℤ pos 1)) 0 (slid_over cleared sent)

-- The branch `laf < lfr`.
pub slide_wrapped : Window → List Block → ℕ → Outcome
slide_wrapped w buf len = loop_over buf len (slots - first w) (first w) (slid_wrapped w buf len)

-- A frame that is in the window and not yet there is stored, and what is complete is sent on.
unfoldable pub store : Window → ℕ → Block → ℕ → Outcome
store w k body len =
    let buf = set w.recvbuf k (overlay body (slot w.recvbuf k)) in
    if check_empty (slot w.recvbuf k)
    then (if ltb_ℤ w.lfr w.laf
        then slide w buf len
        else if ltb_ℤ w.laf w.lfr
        then slide_wrapped w buf len
        else done (record w { recvbuf = buf }) [])
    else done w []

-- `len` is `length - header_size`, the bytes of the body.
unfoldable pub accept : Window → ℤ → Block → ℕ → Outcome
accept w seq body len =
    if in_window w seq
    then (elim seq [ negsuc n ↦ fault | pos k ↦ if ltb k slots then store w k body len else fault ])
    else done w []

-- What is sent before goes in front of what is sent after.
abbrev pub prepend : List Block → Outcome → Outcome
prepend sent fault = fault
prepend sent (done w more) = done w (sent ++ more)

abbrev pub and_then : Outcome → (Window → Outcome) → Outcome
and_then fault rest = fault
and_then (done w sent) rest = prepend sent (rest w)

-- What the loop of `server()` does with the frames of packets in turn.
pub receive : Window → List (ℤ × Block) → Outcome
receive w [] = done w []
receive w ((seq, body) ∷ frames) =
    and_then (accept w seq body (length body)) (λ w'. receive w' frames)
