-- ===== src/Receiver/Far.antt =====
-- The branch `laf < lfr` of the receiver, where the window goes round the end of the buffer.
use osu_cse.Base.{ℕ, ◌+◌, ◌-◌, ◌%◌, ◌≤◌, ◌<◌, ◌≡◌, sym, ap, ap₂, ◌∙◌, arith}
use osu_cse.Base.{true, false, inl, inr, Bool-cases, ◌==◌, if◌then◌else◌}
use osu_cse.Base.{List, ◌++◌, map, length, take, length-append, lt→ltb}
use osu_cse.Base.Int.{ℤ, pos, negsuc, pos_part, ◌+ℤ◌, ◌-ℤ◌}
use osu_cse.Base.Int.{int_laws}
use mathlib.Core.List.{map-append}
use osu_cse.Buffer.{Block, slots, window, clear}
use osu_cse.Buffer.Runs.{cyclic, complete, length-cyclic, cyclic-add, cyclic-around}
use osu_cse.Buffer.Runs.{
  complete-append_full, complete_full, complete-append_part, length-clear, cyclic-clear, emptied,
  clear-emptied, emptied-add, emptied-around,
}
use osu_cse.Receiver.{Outcome, done, loop_over}
use osu_cse.Receiver.{slid_over, slid_wrapped, slide_wrapped}
use osu_cse.Receiver.Near.{emptied-none, clear-emptied_run}
use osu_cse.Receiver.Forms.{
  waiting, laf_of, IsDelivery, waiting_eq, first_back, loop_over-run, delivered, run-le, same_test,
  other_test,
}

-- The end of the second loop at `i`.
slid_over_lem :
    (buf before sent : List Block) (i : ℕ)
    → i ≤ 20
    → slid_over buf before (sent, i) ≡ done (waiting (clear buf 0 i) i) (before ++ sent)
unfolding slid_over
slid_over_lem buf before sent i h =
    ap (λ w. done w (before ++ sent))
      (waiting_eq (clear buf 0 i) i (last i) (last i +ℤ pos window) (last_is i) (next_is i h))
  where
    last : ℕ → ℤ
    last k = if k == 0 then negsuc 0 else pos k -ℤ pos 1

    last_is : (k : ℕ) → last k ≡ pos k -ℤ pos 1
    last_is k = unfold ◌-ℤ◌ in ground arith

    next_is : (k : ℕ) → k ≤ 20 → last k +ℤ pos window ≡ laf_of k
    next_is k h = unfold ◌-ℤ◌ ◌+ℤ◌ in ground arith

pub slid_wrapped_none :
    (old buf sent : List Block) (len n : ℕ)
    → slid_wrapped (waiting old n) buf len (sent, n) ≡ done (waiting buf n) sent
unfolding slid_wrapped
slid_wrapped_none old buf sent len n = rw (first_back n, same_test n)

slid_wrapped_some :
    (old buf sent : List Block) (len n i : ℕ)
    → 44 < n
    → n < i
    → i < slots
    → slid_wrapped (waiting old n) buf len (sent, i) ≡ done (waiting (clear buf n (i - n)) i) sent
unfolding slid_wrapped
slid_wrapped_some old buf sent len n i far lt le =
    rw (first_back n, other_test n i lt, lt→ltb i slots le)
      (ap (λ a. done (record { recvbuf = clear buf n (i - n); lfr = pos i -ℤ pos 1; laf = a }) sent)
        (span far lt))
  where
    span : 44 < n → n < i → laf_of n +ℤ (pos i -ℤ (pos n -ℤ pos 1) -ℤ pos 1) ≡ laf_of i
    span far lt = rw (lt→ltb 44 n far, lt→ltb 44 i (omega arith)) (omega int_laws)

slid_wrapped_all :
    (old buf sent : List Block) (len n : ℕ)
    → n < slots
    → slid_wrapped (waiting old n) buf len (sent, slots)
      ≡ loop_over
          (clear buf n (slots - n))
          len
          (pos_part (laf_of n +ℤ pos 1))
          0
          (slid_over (clear buf n (slots - n)) sent)
unfolding slid_wrapped
slid_wrapped_all old buf sent len n lt = rw (first_back n, other_test n slots lt)

-- With the window round the end of the buffer.
module _ (old buf : List Block) (len n : ℕ) (far : 44 < n) (inside : n < slots)
    (size : length buf ≡ slots) where
  width_far : pos_part (laf_of n +ℤ pos 1) ≡ n - 44
  width_far = unfold ◌-ℤ◌ ◌+ℤ◌ in ground arith

  -- The run up to the end of the buffer, and the run over the frames from 0 on.
  abbrev here : List Block
  here = complete (cyclic buf n (slots - n))

  abbrev there : List Block
  there = complete (cyclic buf 0 (n - 44))

  abbrev far_run : List Block
  far_run = complete (cyclic buf n window)

  parts : cyclic buf n window ≡ cyclic buf n (slots - n) ++ cyclic buf 0 (n - 44)
  parts =
      ap (cyclic buf n) {y = slots - n + (n - 44)} (omega arith)
      ∙ cyclic-add buf n (slots - n) (n - 44)
      ∙ ap (λ l. cyclic buf n (slots - n) ++ l)
          (ap (λ k. cyclic buf k (n - 44)) {y = 0 + slots} (omega arith)
            ∙ cyclic-around buf 0 (n - 44))

  part_run : length here < slots - n → here ≡ far_run
  part_run h = sym (
      ap complete parts
      ∙ complete-append_part (cyclic buf n (slots - n)) (cyclic buf 0 (n - 44))
          (rw length-cyclic h))

  all_here :
      length here ≡ slots - n
      → length (complete (cyclic buf n (slots - n))) ≡ length (cyclic buf n (slots - n))
  all_here h = h ∙ sym (length-cyclic buf n (slots - n))

  whole_run : length here ≡ slots - n → here ++ there ≡ far_run
  whole_run h =
      ap (λ l. l ++ there) (complete_full (cyclic buf n (slots - n)) (all_here h))
      ∙ sym (
          ap complete parts
          ∙ complete-append_full (cyclic buf n (slots - n)) (cyclic buf 0 (n - 44)) (all_here h))

  slide-slid_wrapped :
      slide_wrapped (waiting old n) buf len
      ≡ slid_wrapped (waiting old n) buf len (map (take len) here, n + length here)
  unfolding slide_wrapped
  slide-slid_wrapped =
      ap (λ k. loop_over buf len (slots - k) k (slid_wrapped (waiting old n) buf len))
        (first_back n)
      ∙ loop_over-run buf len (slots - n) n (slid_wrapped (waiting old n) buf len) (omega arith)

  abbrev cleared : List Block
  cleared = clear buf n (slots - n)

  second_loop :
      (rest : List Block × ℕ → Outcome)
      → loop_over cleared len (pos_part (laf_of n +ℤ pos 1)) 0 rest
        ≡ rest (map (take len) there, length there)
  second_loop rest =
      ap (λ k. loop_over cleared len k 0 rest) width_far
      ∙ loop_over-run cleared len (n - 44) 0 rest (omega arith)
      ∙ ap (λ l. rest (map (take len) (complete l), 0 + length (complete l)))
          (cyclic-clear (slots - n) n 0 (n - 44) buf (omega arith) (omega arith))
      ∙ ap (λ k. rest (map (take len) there, k)) (omega arith)

  over :
      length here ≡ slots - n
      → slide_wrapped (waiting old n) buf len
        ≡ done (waiting (clear cleared 0 (length there)) (length there)) (map (take len) far_run)
  over h =
      slide-slid_wrapped
      ∙ ap (λ k. slid_wrapped (waiting old n) buf len (map (take len) here, k)) {y = slots}
          (omega (arith, h))
      ∙ slid_wrapped_all old buf (map (take len) here) len n inside
      ∙ second_loop (slid_over cleared (map (take len) here))
      ∙ slid_over_lem cleared (map (take len) here) (map (take len) there) (length there)
          (omega (arith, run-le buf 0 (n - 44)))
      ∙ ap (done (waiting (clear cleared 0 (length there)) (length there)))
          (sym (map-append (take len) here there) ∙ ap (map (take len)) (whole_run h))

  both_emptied :
      length here ≡ slots - n → clear cleared 0 (length there) ≡ emptied buf n (length far_run)
  both_emptied h =
      clear-emptied (length there) 0 cleared (omega (arith, run-le buf 0 (n - 44)))
      ∙ ap (λ b. emptied b 0 (length there)) (clear-emptied (slots - n) n buf (omega arith))
      ∙ sym (emptied-around (length there) 0 (emptied buf n (slots - n)))
      ∙ ap (λ k. emptied (emptied buf n (slots - n)) k (length there)) (omega arith)
      ∙ sym (emptied-add (slots - n) (length there) n buf)
      ∙ ap (emptied buf n) (omega (arith, h, length-append here there, ap length (whole_run h)))

  pub slide_far : IsDelivery (waiting old n) buf len (slide_wrapped (waiting old n) buf len)
  slide_far = elim (Bool-cases (length here == 0)) [
    | inl none_sent ↦
        delivered old buf buf len n n (slide_wrapped (waiting old n) buf len)
          (slide-slid_wrapped
            ∙ ap₂ (λ l k. slid_wrapped (waiting old n) buf len (map (take len) l, k))
                (part_run (short none_sent)) (stands none_sent)
            ∙ slid_wrapped_none old buf (map (take len) far_run) len n)
          (emptied-none buf n (length far_run) (none_run none_sent))
          (ap (λ k. k % slots)
            (omega (arith, stands none_sent, ap length (part_run (short none_sent)))))
          size (omega arith)
    | inr some_sent ↦ elim (Bool-cases (length here == slots - n)) [
      | inl all ↦
          delivered old buf (clear cleared 0 (length there)) len n (length there)
            (slide_wrapped (waiting old n) buf len) (over (exactly all))
            (both_emptied (exactly all)) (around (exactly all))
            (length-clear (length there) 0 cleared ∙ length-clear (slots - n) n buf ∙ size)
            (omega (arith, run-le buf 0 (n - 44)))
      | inr part ↦
          delivered old buf (clear buf n (n + length here - n)) len n (n + length here)
            (slide_wrapped (waiting old n) buf len)
            (slide-slid_wrapped
              ∙ slid_wrapped_some old buf (map (take len) here) len n (n + length here) far
                  (moves some_sent) (within part)
              ∙ ap
                  (λ l.
                    done (waiting (clear buf n (n + length here - n)) (n + length here))
                      (map (take len) l))
                  (part_run (less part)))
            (clear-emptied_run buf n (length here) (omega (arith, within part))
              ∙ ap (emptied buf n) (ap length (part_run (less part))))
            (ap (λ k. (n + k) % slots) (ap length (part_run (less part))))
            (length-clear (n + length here - n) n buf ∙ size) (omega (arith, within part))
    ]
  ]
    where
      stands : (length here == 0) ≡ true → n + length here ≡ n
      stands h = ground arith

      short : (length here == 0) ≡ true → length here < slots - n
      short h = ground arith

      none_run : (length here == 0) ≡ true → (length far_run == 0) ≡ true
      none_run h = ground (arith, ap length (part_run (short h)))

      moves : (length here == 0) ≡ false → n < n + length here
      moves h = ground arith

      exactly : (length here == slots - n) ≡ true → length here ≡ slots - n
      exactly h = ground arith

      less : (length here == slots - n) ≡ false → length here < slots - n
      less h = ground (arith, run-le buf n (slots - n))

      within : (length here == slots - n) ≡ false → n + length here < slots
      within h = omega (arith, less h)

      around : length here ≡ slots - n → length there % slots ≡ (n + length far_run) % slots
      around h = omega (arith, ap length (whole_run h), length-append here there, h)
