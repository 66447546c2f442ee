-- ===== src/Receiver/Tests.antt =====
-- Runs of the receiver, and its theorems at windows. The blocks are short.
use osu_cse.Base.{inr}
use osu_cse.Base.{
  ℕ, suc, ◌%◌, ◌≡◌, refl, arith, List, [], ◌∷◌, ◌++◌, replicate, length, length-replicate,
}
use osu_cse.Base.Int.{ℤ, pos, negsuc, ◌+ℤ◌, ◌-ℤ◌}
use osu_cse.Buffer.{Block, buff_size, slots, check_empty, clear, blank}
use osu_cse.Buffer.Runs.{cyclic, complete}
use osu_cse.Receiver.{
  Window, initial, Outcome, done, fault, accept, receive, in_window, store, first,
}
use osu_cse.Receiver.{
  slide, slid, slide_wrapped, slid_wrapped, slid_over, forward, reads_outside, limit_lfr, wrap_laf,
}
use osu_cse.Receiver.Invariant.{IsWindow}
use osu_cse.Receiver.Order.{Arrivals, nothing, arrival}
use osu_cse.Receiver.Progress.{arrivals_go_on}
use osu_cse.Receiver.Forms.{IsDelivery}
use osu_cse.Receiver.Delivery.{stored, accept-IsDelivery}
use osu_cse.Receiver.Stall.{IsSmall, IsStalled, stalls_forever, zero_frame_lost}
use osu_cse.Receiver.Safety.{IsSafe, receive-IsSafe}

abbrev full : Block
full = 7 ∷ []

-- What `server()` starts with, but for the size of the blocks.
abbrev start : Window
start = record { recvbuf = replicate 64 []; lfr = negsuc 0; laf = pos 19 }

start-IsWindow : IsWindow start
unfolding ◌+ℤ◌
start-IsWindow = record { size = refl; low = omega arith; high = omega arith; span = refl }

-- Frames 1 and 2 are there; frame 0 is not.
abbrev gap : Window
gap = record { recvbuf = [] ∷ full ∷ full ∷ replicate 61 []; lfr = negsuc 0; laf = pos 19 }

gap-IsWindow : IsWindow gap
unfolding ◌+ℤ◌
gap-IsWindow = record { size = refl; low = omega arith; high = omega arith; span = refl }

-- Frames 61 to 63, 0 and 1 are there and 60 is not, with the window round the end.
abbrev round_end : Window
round_end = record {
  recvbuf = full ∷ full ∷ replicate 59 [] ++ (full ∷ full ∷ full ∷ []);
  lfr = pos 59;
  laf = pos 15;
}

-- Frames 45 to 63 are there and 44 is not.
abbrev before_end : Window
before_end = record { recvbuf = replicate 45 [] ++ replicate 19 full; lfr = pos 43; laf = pos 63 }

before_end-IsWindow : IsWindow before_end
unfolding ◌+ℤ◌ ◌-ℤ◌
before_end-IsWindow = record { size = refl; low = omega arith; high = omega arith; span = refl }

round_end-IsWindow : IsWindow round_end
unfolding ◌+ℤ◌ ◌-ℤ◌
round_end-IsWindow = record { size = refl; low = omega arith; high = omega arith; span = refl }

accept-IsDelivery_example : IsDelivery gap (stored gap 0 full) 1 (accept gap (pos 0) full 1)
unfolding in_window ◌+ℤ◌ check_empty
accept-IsDelivery_example =
    accept-IsDelivery gap 0 full 1 gap-IsWindow (omega arith) (omega arith) refl refl

sent : Outcome → List Block
sent (done w blocks) = blocks
sent fault = []

-- Frame 0 sets frames 0 to 2 free.
accept-gap : sent (accept gap (pos 0) full 1) ≡ full ∷ full ∷ full ∷ []
unfolding sent accept in_window store slide slid forward reads_outside check_empty ◌+ℤ◌ ◌-ℤ◌
    limit_lfr wrap_laf
accept-gap = refl

-- Frame 60 sets frames 60 to 63, 0 and 1 free.
accept-round_end : sent (accept round_end (pos 60) full 1) ≡ replicate 6 full
unfolding sent accept in_window store slide_wrapped slid_wrapped slid_over forward reads_outside
    check_empty clear blank ◌+ℤ◌ ◌-ℤ◌
accept-round_end = refl

abbrev later_frames : List (ℤ × Block)
later_frames = (pos 0, full) ∷ (pos 1, full) ∷ (pos 44, full) ∷ []

later_frames-IsSmall : IsSmall later_frames
later_frames-IsSmall =
    ((0, refl, omega arith), ((1, refl, omega arith), ((44, refl, omega arith), tt)))

stalls_forever_example : IsStalled 44 full 1 later_frames before_end
unfolding in_window ◌+ℤ◌ ◌-ℤ◌ check_empty cyclic complete
stalls_forever_example =
    stalls_forever before_end 44 full 1 later_frames before_end-IsWindow refl (omega arith) refl
      refl refl later_frames-IsSmall

zero_frame_lost_example :
    (w : Window) × (accept gap (pos (first gap)) (0 ∷ 0 ∷ []) 2 ≡ done w [])
    × (first w % slots ≡ first gap)
unfolding in_window ◌+ℤ◌ check_empty
zero_frame_lost_example =
    zero_frame_lost gap (0 ∷ 0 ∷ []) 2 gap-IsWindow (omega arith) refl refl refl

receive-IsSafe_example : IsSafe (receive start later_frames)
receive-IsSafe_example = receive-IsSafe later_frames start start-IsWindow later_frames-IsSmall

-- A file whose block `j` has the byte `j + 1` throughout.
abbrev file : ℕ → Block
file j = replicate 1000 (suc j)

file-full : (j : ℕ) → length (file j) ≡ buff_size
file-full j = length-replicate 1000 (suc j)

-- The window once block 1 came.
abbrev one_there : Window
one_there = record {
  recvbuf = blank ∷ (file 1 ++ []) ∷ replicate 62 blank;
  lfr = negsuc 0;
  laf = pos 19;
}

first_waits : accept initial (pos (1 % slots)) (file 1) (length (file 1)) ≡ done one_there []
unfolding accept in_window store slide slid forward reads_outside check_empty blank ◌+ℤ◌ ◌-ℤ◌
first_waits = refl

abbrev both_gone : Window
both_gone = record { recvbuf = replicate slots blank; lfr = pos 1; laf = pos 21 }

both_sent :
    accept one_there (pos (0 % slots)) (file 0) (length (file 0))
    ≡ done both_gone (file 0 ∷ file 1 ∷ [])
unfolding accept in_window store slide slid forward reads_outside check_empty clear blank limit_lfr
    wrap_laf ◌+ℤ◌ ◌-ℤ◌
both_sent = refl

abbrev two_arrived : Arrivals file both_gone (file 0 ∷ file 1 ∷ [])
two_arrived =
    arrival one_there both_gone [] (file 0 ∷ file 1 ∷ []) 0 (file 0)
      (arrival initial one_there [] [] 1 (file 1) nothing (file-full 1, inr refl) (omega arith)
        (omega arith) first_waits)
      (file-full 0, inr refl) (omega arith) (omega arith) both_sent

arrivals_go_on_example :
    (w' : Window) × (more : List Block) × (accept both_gone
        (pos (2 % slots))
        (file 2)
        (length (file 2))
      ≡ done w' more)
    × ((rest : List Block) × (more ≡ file 2 ∷ rest))
unfolding ◌+ℤ◌ check_empty
arrivals_go_on_example =
    arrivals_go_on file file-full both_gone (file 0 ∷ file 1 ∷ []) two_arrived (omega arith) refl
