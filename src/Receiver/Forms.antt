-- ===== src/Receiver/Forms.antt =====
-- The windows that `lfr` and `laf` can describe, by the frame that they wait for, and what the
-- loops of the receiver send over a run of frames.
use osu_cse.Base.{ℕ, zero, suc, ◌+◌, ◌%◌, ◌≤◌, ◌<◌, ◌≡◌, refl, sym, ap, ◌∙◌, arith}
use osu_cse.Base.{true, false, inl, inr, Bool-cases, ltb, ◌==◌, if◌then◌else◌}
use osu_cse.Base.{List, [], ◌∷◌, map, length, take}
use osu_cse.Base.Int.{ℤ, pos, negsuc, pos_part, ◌+ℤ◌, ◌-ℤ◌, ◌≤ℤ◌, ltb_ℤ}
use osu_cse.Base.Int.{int_laws, parts_apart}
use osu_cse.Buffer.{Block, slots, window, slot, check_empty}
use osu_cse.Buffer.Runs.{emptied, cyclic, complete, length-cyclic, length-complete-le}
use osu_cse.Receiver.{Window, Outcome, done, reads_outside, loop_over, forward, first}
use osu_cse.Receiver.Invariant.{IsWindow}

-- The blocks that are ready to be sent on once `buf` is the buffer.
abbrev pub ready : Window → List Block → List Block
ready w buf = complete (cyclic buf (first w) window)

-- The outcome sends those on, in order, empties their blocks, waits for the frame behind them, and
-- keeps the relation between `lfr` and `laf`.
pub record IsDelivery (w : Window) (buf : List Block) (len : ℕ) (out : Outcome) : Type 0 where
  pub next : Window
  pub returns : out ≡ done next (map (take len) (ready w buf))
  pub gone : next.recvbuf ≡ emptied buf (first w) (length (ready w buf))
  pub moved : first next % slots ≡ (first w + length (ready w buf)) % slots
  pub valid : IsWindow next

pub forward-run :
    (buf : List Block) (len left i : ℕ)
    → i + left ≤ slots
    → forward buf len left i
      ≡ (map (take len) (complete (cyclic buf i left)), i + length (complete (cyclic buf i left)))
unfolding forward cyclic complete
forward-run buf len zero i h = ap (λ k. ([], k)) (omega arith)
forward-run buf len (suc left) i h =
    let inside : i % slots ≡ i = omega arith in
    rw inside (elim (Bool-cases (check_empty (slot buf i))) [
      | inl gone ↦ rw gone (ap (λ k. ([], k)) (omega arith))
      | inr there ↦
          rw (there, forward-run buf len left (suc i) (omega arith))
            (ap
              (λ k.
                (take len (slot buf i) ∷ map (take len) (complete (cyclic buf (suc i) left)), k))
              (omega arith))
    ])

reads-inside : (buf : List Block) (left i : ℕ) → i + left ≤ slots → reads_outside buf left i ≡ false
unfolding reads_outside
reads-inside buf zero i h = refl
reads-inside buf (suc left) i h =
    rw (inside (omega arith), reads-inside buf left (suc i) (omega arith))
      (elim (Bool-cases (check_empty (slot buf i))) [
        | inl gone ↦ rw gone refl
        | inr there ↦ rw there refl
      ])
  where
    inside : i < slots → ltb i slots ≡ true
    inside h = ground arith

-- A loop that ends within the buffer.
pub loop_over-run :
    (buf : List Block) (len left i : ℕ) (rest : List Block × ℕ → Outcome)
    → i + left ≤ slots
    → loop_over buf len left i rest
      ≡ rest
          (map (take len) (complete (cyclic buf i left)), i + length (complete (cyclic buf i left)))
loop_over-run buf len left i rest h =
    rw (reads-inside buf left i h) (ap rest (forward-run buf len left i h))

-- `first` in terms of `lfr` and back.
pub lfr-first : (w : Window) → negsuc 0 ≤ℤ w.lfr → w.lfr ≡ pos (first w) -ℤ pos 1
lfr-first w low = go w.lfr low
  where
    go : (l : ℤ) → negsuc 0 ≤ℤ l → l ≡ pos (pos_part (l +ℤ pos 1)) -ℤ pos 1
    go l h = omega (int_laws, parts_apart (l +ℤ pos 1))

pub first_back : (n : ℕ) → pos_part (pos n -ℤ pos 1 +ℤ pos 1) ≡ n
first_back n = omega (int_laws, parts_apart (pos n -ℤ pos 1 +ℤ pos 1))

-- `laf` for a frame `n` that is waited for.
abbrev pub laf_of : ℕ → ℤ
laf_of n = if ltb 44 n then pos n -ℤ pos 45 else pos n +ℤ pos 19

span_iff :
    (l : ℤ) (n : ℕ)
    → l ≡ pos n -ℤ pos 1
    → (if ltb_ℤ (pos 43) l then l -ℤ pos 44 else l +ℤ pos 20) ≡ laf_of n
span_iff l n e = rw e (go n)
  where
    go :
        (n : ℕ)
        → (if ltb_ℤ (pos 43) (pos n -ℤ pos 1)
            then pos n -ℤ pos 1 -ℤ pos 44
            else pos n -ℤ pos 1 +ℤ pos 20)
          ≡ laf_of n
    go n = unfold ◌-ℤ◌ ◌+ℤ◌ in ground arith

-- The window that waits for frame `n` of a buffer.
abbrev pub waiting : List Block → ℕ → Window
waiting buf n = record { recvbuf = buf; lfr = pos n -ℤ pos 1; laf = laf_of n }

pub waiting-IsWindow :
    (buf : List Block) (n : ℕ) → length buf ≡ slots → n ≤ slots → IsWindow (waiting buf n)
waiting-IsWindow buf n size le = record {
  size = size;
  low = omega int_laws;
  high = omega int_laws;
  span = sym (span_iff (pos n -ℤ pos 1) n refl);
}

pub IsWindow-waiting : (w : Window) → IsWindow w → w ≡ waiting w.recvbuf (first w)
IsWindow-waiting w v =
    let l : w.lfr ≡ pos (first w) -ℤ pos 1 = lfr-first w v.low in
    let a : w.laf ≡ laf_of (first w) = v.span ∙ span_iff w.lfr (first w) l in
    λ i. record { recvbuf = w.recvbuf; lfr = l i; laf = a i }

-- Two ways to write a window that waits for frame `n`.
pub waiting_eq :
    (buf : List Block) (n : ℕ) (l a : ℤ)
    → l ≡ pos n -ℤ pos 1
    → a ≡ laf_of n
    → record { recvbuf = buf; lfr = l; laf = a } ≡ waiting buf n
waiting_eq buf n l a p q = λ i. record { recvbuf = buf; lfr = p i; laf = q i }

pub same_test : (n : ℕ) → (n == n) ≡ true
same_test n = ground arith

pub other_test : (n i : ℕ) → n < i → (i == n) ≡ false
other_test n i h = ground arith

-- A delivery from an outcome written out.
pub delivered :
    (old buf buf' : List Block) (len n m : ℕ) (out : Outcome)
    → out ≡ done (waiting buf' m) (map (take len) (complete (cyclic buf n window)))
    → buf' ≡ emptied buf n (length (complete (cyclic buf n window)))
    → m % slots ≡ (n + length (complete (cyclic buf n window))) % slots
    → length buf' ≡ slots
    → m ≤ slots
    → IsDelivery (waiting old n) buf len out
delivered old buf buf' len n m out e gone moved size le = record {
  next = waiting buf' m;
  returns =
      e
      ∙ ap (λ k. done (waiting buf' m) (map (take len) (complete (cyclic buf k window))))
          (sym (first_back n));
  gone =
      gone ∙ ap (λ k. emptied buf k (length (complete (cyclic buf k window)))) (sym (first_back n));
  moved =
      ap (λ k. k % slots) (first_back m)
      ∙ moved
      ∙ ap (λ k. (k + length (complete (cyclic buf k window))) % slots) (sym (first_back n));
  valid = waiting-IsWindow buf' m size le;
}

pub run-le : (buf : List Block) (n k : ℕ) → length (complete (cyclic buf n k)) ≤ k
run-le buf n k = omega (arith, length-complete-le (cyclic buf n k), length-cyclic buf n k)
