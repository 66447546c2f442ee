-- ===== src/Receiver/Order.antt =====
-- What the receiver sends on of the blocks of a file, whose block `j` comes as frame `j` modulo 64,
-- when its frames are lost, come twice or in another order.
use osu_cse.Base.{ℕ, ◌+◌, ◌%◌, ◌≤◌, ◌<◌, ◌≡◌, refl, sym, ap, ap₂, ◌∙◌, arith}
use osu_cse.Base.{List, [], ◌++◌, length, length-append}
use osu_cse.Base.Int.{pos}
use mathlib.Core.Path.{subst}
use osu_cse.Buffer.{Block, buff_size, slots}
use osu_cse.Receiver.{Window, done, initial, accept}
use osu_cse.Receiver.Contents.{IsBody}
use osu_cse.Receiver.Steps.{IsWaiting, IsNext, initial-IsWaiting, accept-IsNext}
use osu_cse.Receiver.Row.{blocks_from, blocks_from-append}

-- Frames taken one after the other by the receiver, and all that it sent on. A frame brings its block
-- of the file, or zeros, as if it is sent again after its block left the driver's buffer. No frame is more than 44
-- behind, or 64 or more ahead of, the block that is waited for.
pub data Arrivals (f : ℕ → Block) : Window → List Block → Type 0 where
  nothing : Arrivals f initial []
  arrival :
      (w w' : Window) (sent more : List Block) (j : ℕ) (body : Block)
      → Arrivals f w sent
      → IsBody f j body
      → length sent ≤ j + 44
      → j < length sent + slots
      → accept w (pos (j % slots)) body (length body) ≡ done w' more
      → Arrivals f w' (sent ++ more)

module _ (f : ℕ → Block) (full : (j : ℕ) → length (f j) ≡ buff_size) where
  pub arrivals-IsWaiting :
      (w : Window) (sent : List Block)
      → Arrivals f w sent
      → IsWaiting f w (length sent) × (sent ≡ blocks_from f 0 (length sent))
  arrivals-IsWaiting _ _ nothing = (initial-IsWaiting f full, refl)
  arrivals-IsWaiting _ _ (arrival w w' sent more j body before of late early taken) =
      let (h, same) = arrivals-IsWaiting w sent before in
      let (h', more_same) =
        subst (IsNext f (length sent)) taken
          (accept-IsNext f full w (length sent) j body of h late early) in
      (
        subst (IsWaiting f w') (sym (length-append sent more)) h',
        ap₂ ◌++◌ same more_same
            ∙ ap (λ k. blocks_from f 0 (length sent) ++ blocks_from f k (length more))
                {y = 0 + length sent} (omega arith)
            ∙ blocks_from-append f (length sent) (length more) 0
            ∙ ap (blocks_from f 0) (sym (length-append sent more)),
      )

  -- However the frames of a file of full blocks arrive, lost, repeated, in another order or with zeros
  -- in place of their blocks, but for
  -- frames that are more than 44 behind or 64 or more ahead of the block that is waited for, the
  -- receiver sends on the blocks of the file from the first one, in order, without a gap or a repeat.
  pub arrivals_in_order :
      (w : Window) (sent : List Block) → Arrivals f w sent → sent ≡ blocks_from f 0 (length sent)
  arrivals_in_order w sent run = (arrivals-IsWaiting w sent run).1
