-- ===== src/Receiver/Progress.antt =====
-- That the receiver goes on when the block comes that it waits for.
use osu_cse.Base.{ℕ, suc, ◌%◌, ◌<◌, ◌≡◌, refl, sym, ap, ◌∙◌, arith}
use osu_cse.Base.{true, false, List, [], ◌∷◌, map, length, take}
use osu_cse.Base.Int.{pos, ◌+ℤ◌, ◌-ℤ◌}
use osu_cse.Buffer.{Block, buff_size, slots, slot, check_empty}
use osu_cse.Buffer.Runs.{cyclic, complete}
use osu_cse.Receiver.{Window, done, first, in_window, accept}
use osu_cse.Receiver.Invariant.{IsWindow}
use osu_cse.Receiver.Forms.{waiting, ready, IsWindow-waiting}
use osu_cse.Receiver.Delivery.{stored, accept-IsDelivery}
use osu_cse.Buffer.Stores.{slot-stored}
use osu_cse.Receiver.Steps.{IsWaiting}
use osu_cse.Receiver.Order.{Arrivals, arrivals-IsWaiting}

awaited_open : (n : ℕ) (buf : List Block) → n < slots → in_window (waiting buf n) (pos n) ≡ true
unfolding in_window
awaited_open n buf h = unfold ◌-ℤ◌ ◌+ℤ◌ in ground arith

in_window-first : (w : Window) → IsWindow w → first w < slots → in_window w (pos (first w)) ≡ true
in_window-first w v h =
    ap (λ x. in_window x (pos (first w))) (IsWindow-waiting w v)
    ∙ awaited_open (first w) w.recvbuf h

complete_one :
    (buf : List Block) (i n : ℕ)
    → check_empty (slot buf (i % slots)) ≡ false
    → complete (cyclic buf i (suc n)) ≡ slot buf (i % slots) ∷ complete (cyclic buf (suc i) n)
unfolding cyclic complete
complete_one buf i n there = rw there

take_all : (xs : Block) → take (length xs) xs ≡ xs
take_all [] = refl
take_all (x ∷ xs) = ap (λ l. x ∷ l) (take_all xs)

module _ (f : ℕ → Block) (full : (j : ℕ) → length (f j) ≡ buff_size) where
  awaited_sent :
      (w : Window) (n : ℕ)
      → IsWaiting f w n
      → first w < slots
      → check_empty (f n) ≡ false
      → (w' : Window) × (more : List Block) × (accept w (pos (n % slots)) (f n) (length (f n))
          ≡ done w' more)
        × ((rest : List Block) × (more ≡ f n ∷ rest))
  awaited_sent w n h inside there =
      let d =
        accept-IsDelivery w k (f n) (length (f n)) h.valid inside (omega arith)
          (ap (λ x. in_window w (pos x)) (sym place) ∙ in_window-first w h.valid inside)
          (h.awaits inside) in
      (
        d.next,
        map (take (length (f n))) (ready w (stored w k (f n))),
        d.returns,
        (
          map (take (length (f n))) others,
          ap (map (take (length (f n)))) one
              ∙ ap (λ b. b ∷ map (take (length (f n))) others)
                  (ap (take (length (f n))) stored_block ∙ take_all (f n)),
        ),
      )
    where
      k : ℕ
      k = n % slots

      place : first w ≡ k
      place = omega (arith, h.place)

      stored_block : slot (stored w k (f n)) (first w % slots) ≡ f n
      stored_block =
          ap (slot (stored w k (f n))) h.place
          ∙ slot-stored w.recvbuf k (f n) (omega (arith, h.valid.size))
              (omega (arith, full n, h.row.fits n (omega arith) (omega arith)))

      others : List Block
      others = complete (cyclic (stored w k (f n)) (suc (first w)) 19)

      one : ready w (stored w k (f n)) ≡ slot (stored w k (f n)) (first w % slots) ∷ others
      one = complete_one (stored w k (f n)) (first w) 19 (ap check_empty stored_block ∙ there)

  -- However the frames of a file of full blocks arrived before, but for frames that were more than 44
  -- behind or 64 or more ahead, and unless the receiver waits past the last block of its buffer: when
  -- the block comes that it waits for, and it is not zero, it is sent on at once, before any others.
  pub arrivals_go_on :
      (w : Window) (sent : List Block)
      → Arrivals f w sent
      → first w < slots
      → check_empty (f (length sent)) ≡ false
      → (w' : Window) × (more : List Block) × (accept w
            (pos (length sent % slots))
            (f (length sent))
            (length (f (length sent)))
          ≡ done w' more)
        × ((rest : List Block) × (more ≡ f (length sent) ∷ rest))
  arrivals_go_on w sent run inside there =
      awaited_sent w (length sent) (arrivals-IsWaiting f full w sent run).0 inside there
