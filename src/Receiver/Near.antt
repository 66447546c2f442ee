-- ===== src/Receiver/Near.antt =====
-- The branch `laf > lfr` of the receiver.
use osu_cse.Base.{ℕ, ◌+◌, ◌-◌, ◌%◌, ◌≤◌, ◌<◌, ◌≡◌, refl, sym, ap, ap₂, ◌∙◌, arith}
use osu_cse.Base.{true, false, inl, inr, Bool-cases, ◌==◌}
use osu_cse.Base.{List, map, length, take}
use osu_cse.Base.Int.{pos, pos_part, ◌+ℤ◌, ◌-ℤ◌}
use osu_cse.Buffer.{Block, slots, window, clear}
use osu_cse.Buffer.Runs.{cyclic, complete}
use osu_cse.Buffer.Runs.{length-clear, emptied, clear-emptied}
use osu_cse.Receiver.{done, loop_over, limit_lfr, wrap_laf, slide}
use osu_cse.Receiver.{slid}
use osu_cse.Receiver.Forms.{
  waiting, laf_of, IsDelivery, first_back, loop_over-run, delivered, run-le, same_test, other_test,
}

limit_within : (n : ℕ) → n ≤ slots → limit_lfr (pos n -ℤ pos 1) ≡ pos n -ℤ pos 1
unfolding limit_lfr ◌-ℤ◌
limit_within n h = ground arith

wrap_within : (n : ℕ) → n ≤ slots → wrap_laf (pos n -ℤ pos 1 +ℤ pos window) ≡ laf_of n
unfolding wrap_laf ◌-ℤ◌ ◌+ℤ◌
wrap_within n h = ground arith

-- After the loop of the branch `laf > lfr` has gone from frame `n` to `i`.
slid_none :
    (old buf sent : List Block) (n : ℕ)
    → slid (waiting old n) buf (sent, n) ≡ done (waiting buf n) sent
unfolding slid
slid_none old buf sent n = rw (first_back n, same_test n)

pub slid_some :
    (old buf sent : List Block) (n i : ℕ)
    → n < i
    → i ≤ slots
    → slid (waiting old n) buf (sent, i) ≡ done (waiting (clear buf n (i - n)) i) sent
unfolding slid
slid_some old buf sent n i lt le =
    rw (first_back n, other_test n i lt, limit_within i le)
      (ap (λ a. done (record { recvbuf = clear buf n (i - n); lfr = pos i -ℤ pos 1; laf = a }) sent)
        (wrap_within i le))

-- A run of no frames, and one that does not go round the end of the buffer.
pub emptied-none : (buf : List Block) (n m : ℕ) → (m == 0) ≡ true → buf ≡ emptied buf n m
unfolding emptied
emptied-none buf n m h = ap (emptied buf n) (zero_is m h)
  where
    zero_is : (m : ℕ) → (m == 0) ≡ true → 0 ≡ m
    zero_is m h = ground arith

pub clear-emptied_run :
    (buf : List Block) (n m : ℕ) → n + m ≤ slots → clear buf n (n + m - n) ≡ emptied buf n m
clear-emptied_run buf n m h = ap (clear buf n) (omega arith) ∙ clear-emptied m n buf h

-- With frames `n` to `n + 19` in one piece.
module _ (old buf : List Block) (len n : ℕ) (near : n ≤ 44) (size : length buf ≡ slots) where
  width_near : pos_part (laf_of n -ℤ (pos n -ℤ pos 1)) ≡ window
  width_near = unfold ◌-ℤ◌ ◌+ℤ◌ in ground arith

  abbrev pub near_run : List Block
  near_run = complete (cyclic buf n window)

  pub slide-slid :
      slide (waiting old n) buf len
      ≡ slid (waiting old n) buf (map (take len) near_run, n + length near_run)
  unfolding slide
  slide-slid =
      ap₂ (λ left i. loop_over buf len left i (slid (waiting old n) buf)) width_near (first_back n)
      ∙ loop_over-run buf len window n (slid (waiting old n) buf) (omega arith)

  pub slide_near : IsDelivery (waiting old n) buf len (slide (waiting old n) buf len)
  slide_near = elim (Bool-cases (length near_run == 0)) [
    | inl none_sent ↦
        delivered old buf buf len n n (slide (waiting old n) buf len)
          (slide-slid
            ∙ ap (λ k. slid (waiting old n) buf (map (take len) near_run, k)) (stands none_sent)
            ∙ slid_none old buf (map (take len) near_run) n)
          (emptied-none buf n (length near_run) none_sent)
          (ap (λ k. k % slots) (sym (stands none_sent))) size (omega arith)
    | inr some_sent ↦
        delivered old buf (clear buf n (n + length near_run - n)) len n (n + length near_run)
          (slide (waiting old n) buf len)
          (slide-slid
            ∙ slid_some old buf (map (take len) near_run) n (n + length near_run) (moves some_sent)
                (omega (arith, run-le buf n window)))
          (clear-emptied_run buf n (length near_run) (omega (arith, run-le buf n window))) refl
          (length-clear (n + length near_run - n) n buf ∙ size) (omega (arith, run-le buf n window))
  ]
    where
      stands : (length near_run == 0) ≡ true → n + length near_run ≡ n
      stands h = ground arith

      moves : (length near_run == 0) ≡ false → n < n + length near_run
      moves h = ground arith
