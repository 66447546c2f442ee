-- ===== src/Buffer/Runs.antt =====
-- The blocks of a buffer from an index on, going round at its end, and the run of blocks at the
-- front of such a list that are there.
use osu_cse.Base.{ℕ, zero, suc, ◌+◌, ◌%◌, ◌≤◌, ◌<◌, ◌≡◌, refl, ap, ap₂, ◌∙◌, arith}
use osu_cse.Base.{List, [], ◌∷◌, ◌++◌, length, set, inl, inr, Bool-cases}
use osu_cse.Base.{if◌then◌else◌, length-set, get_or-set_ne, get_or-set_self, ◌==◌, true, false}
use osu_cse.Buffer.{Block, slots, slot, blank, check_empty, clear}

unfoldable pub cyclic : List Block → ℕ → ℕ → List Block
cyclic buf i zero = []
cyclic buf i (suc n) = slot buf (i % slots) ∷ cyclic buf (suc i) n

-- The longest front part with no empty block.
unfoldable pub complete : List Block → List Block
complete [] = []
complete (b ∷ rest) = if check_empty b then [] else b ∷ complete rest

pub length-cyclic : (buf : List Block) (i n : ℕ) → length (cyclic buf i n) ≡ n
unfolding cyclic
length-cyclic buf i zero = refl
length-cyclic buf i (suc n) = ap suc (length-cyclic buf (suc i) n)

pub cyclic-add :
    (buf : List Block) (i m n : ℕ) → cyclic buf i (m + n) ≡ cyclic buf i m ++ cyclic buf (i + m) n
unfolding cyclic
cyclic-add buf i zero n = ap₂ (cyclic buf) (omega arith) (omega arith)
cyclic-add buf i (suc m) n =
    ap (cyclic buf i) {y = suc (m + n)} (omega arith)
    ∙ ap (λ l. slot buf (i % slots) ∷ l)
        (cyclic-add buf (suc i) m n
          ∙ ap (λ k. cyclic buf (suc i) m ++ cyclic buf k n) (omega arith))

pub cyclic-around : (buf : List Block) (i n : ℕ) → cyclic buf (i + slots) n ≡ cyclic buf i n
unfolding cyclic
cyclic-around buf i zero = refl
cyclic-around buf i (suc n) =
    ap₂ (λ k l. slot buf k ∷ l) (omega arith)
      (ap (λ k. cyclic buf k n) (omega arith) ∙ cyclic-around buf (suc i) n)

pub length-complete-le : (l : List Block) → length (complete l) ≤ length l
unfolding complete
length-complete-le [] = omega arith
length-complete-le (b ∷ rest) = ground (arith, length-complete-le rest)

-- A list with no empty block is complete, and the run goes on behind it.
pub complete-append_full :
    (xs ys : List Block)
    → length (complete xs) ≡ length xs
    → complete (xs ++ ys) ≡ xs ++ complete ys
unfolding complete
complete-append_full [] ys h = refl
complete-append_full (x ∷ xs) ys h = elim (Bool-cases (check_empty x)) [
  | inl gone ↦ absurd (ground arith)
  | inr there ↦ rw there (ap (λ l. x ∷ l) (complete-append_full xs ys (ground arith)))
]

pub complete_full : (xs : List Block) → length (complete xs) ≡ length xs → complete xs ≡ xs
unfolding complete
complete_full [] h = refl
complete_full (x ∷ xs) h = elim (Bool-cases (check_empty x)) [
  | inl gone ↦ absurd (ground arith)
  | inr there ↦ rw there (ap (λ l. x ∷ l) (complete_full xs (ground arith)))
]

-- A run that ends within a list ends there whatever comes behind it.
pub complete-append_part :
    (xs ys : List Block) → length (complete xs) < length xs → complete (xs ++ ys) ≡ complete xs
unfolding complete
complete-append_part [] ys h = absurd (omega arith)
complete-append_part (x ∷ xs) ys h = elim (Bool-cases (check_empty x)) [
  | inl gone ↦ rw gone
  | inr there ↦ rw there (ap (λ l. x ∷ l) (complete-append_part xs ys (ground arith)))
]

pub length-clear : (n i : ℕ) (buf : List Block) → length (clear buf i n) ≡ length buf
unfolding clear
length-clear zero i buf = refl
length-clear (suc n) i buf = length-clear n (suc i) (set buf i blank) ∙ length-set buf i blank

-- Clearing leaves the blocks before it alone.
pub slot-clear_before : (n i j : ℕ) (buf : List Block) → j < i → slot (clear buf i n) j ≡ slot buf j
unfolding clear
slot-clear_before zero i j buf h = refl
slot-clear_before (suc n) i j buf h =
    slot-clear_before n (suc i) j (set buf i blank) (omega arith)
    ∙ get_or-set_ne buf i j blank [] (omega arith)

pub cyclic-clear :
    (n i j m : ℕ) (buf : List Block)
    → j + m ≤ i
    → i ≤ slots
    → cyclic (clear buf i n) j m ≡ cyclic buf j m
unfolding cyclic
cyclic-clear n i j zero buf h le = refl
cyclic-clear n i j (suc m) buf h le =
    ap₂ ◌∷◌ (slot-clear_before n i (j % slots) buf (omega arith))
      (cyclic-clear n i (suc j) m buf (omega arith) le)

-- `n` blocks set to zero from block `i` on, going round the end of the buffer.
unfoldable pub emptied : List Block → ℕ → ℕ → List Block
emptied buf i zero = buf
emptied buf i (suc n) = emptied (set buf (i % slots) blank) (suc i) n

pub clear-emptied : (n i : ℕ) (buf : List Block) → i + n ≤ slots → clear buf i n ≡ emptied buf i n
unfolding emptied clear
clear-emptied zero i buf h = refl
clear-emptied (suc n) i buf h =
    let inside : i % slots ≡ i = omega arith in
    rw inside (clear-emptied n (suc i) (set buf i blank) (omega arith))

pub emptied-add :
    (m n i : ℕ) (buf : List Block) → emptied buf i (m + n) ≡ emptied (emptied buf i m) (i + m) n
unfolding emptied
emptied-add zero n i buf =
    ap (emptied buf i) {x = 0 + n} {y = n} (omega arith)
    ∙ ap (λ k. emptied buf k n) {x = i} {y = i + 0} (omega arith)
emptied-add (suc m) n i buf =
    ap (emptied buf i) {x = suc m + n} {y = suc (m + n)} (omega arith)
    ∙ emptied-add m n (suc i) (set buf (i % slots) blank)
    ∙ ap (λ k. emptied (emptied (set buf (i % slots) blank) (suc i) m) k n) (omega arith)

pub emptied-around : (n i : ℕ) (buf : List Block) → emptied buf (i + slots) n ≡ emptied buf i n
unfolding emptied
emptied-around zero i buf = refl
emptied-around (suc n) i buf =
    ap (λ k. emptied (set buf k blank) (suc (i + slots)) n) (omega arith)
    ∙ ap (λ k. emptied (set buf (i % slots) blank) k n) (omega arith)
    ∙ emptied-around n (suc i) (set buf (i % slots) blank)

pub cyclic-same :
    (buf : List Block) (i j n : ℕ) → i % slots ≡ j % slots → cyclic buf i n ≡ cyclic buf j n
unfolding cyclic
cyclic-same buf i j zero h = refl
cyclic-same buf i j (suc n) h =
    ap₂ (λ k l. slot buf k ∷ l) h (cyclic-same buf (suc i) (suc j) n (omega (arith, h)))

pub emptied-same :
    (n i j : ℕ) (buf : List Block) → i % slots ≡ j % slots → emptied buf i n ≡ emptied buf j n
unfolding emptied
emptied-same zero i j buf h = refl
emptied-same (suc n) i j buf h =
    ap (λ k. emptied (set buf k blank) (suc i) n) h
    ∙ emptied-same n (suc i) (suc j) (set buf (j % slots) blank) (omega (arith, h))

pub slot-emptied_other :
    (n i j : ℕ) (buf : List Block)
    → i + n ≤ j
    → j < i + slots
    → slot (emptied buf i n) (j % slots) ≡ slot buf (j % slots)
unfolding emptied
slot-emptied_other zero i j buf above below = refl
slot-emptied_other (suc n) i j buf above below =
    slot-emptied_other n (suc i) j (set buf (i % slots) blank) (omega arith) (omega arith)
    ∙ get_or-set_ne buf (i % slots) (j % slots) blank [] (λ e. omega (arith, e))

pub slot-emptied_self :
    (n i j : ℕ) (buf : List Block)
    → length buf ≡ slots
    → n ≤ slots
    → i ≤ j
    → j < i + n
    → slot (emptied buf i n) (j % slots) ≡ blank
unfolding emptied
slot-emptied_self zero i j buf size fits above below = absurd (omega arith)
slot-emptied_self (suc n) i j buf size fits above below = elim (Bool-cases (j == i)) [
  | inl same ↦
      ap (slot (emptied (set buf (i % slots) blank) (suc i) n)) (around same)
      ∙ slot-emptied_other n (suc i) (i + slots) (set buf (i % slots) blank) (omega arith)
          (omega arith)
      ∙ ap (slot (set buf (i % slots) blank)) (omega arith)
      ∙ get_or-set_self buf (i % slots) blank [] (omega (arith, size))
  | inr other ↦
      slot-emptied_self n (suc i) j (set buf (i % slots) blank)
        (length-set buf (i % slots) blank ∙ size) (omega arith) (later other) (omega arith)
]
  where
    around : (j == i) ≡ true → j % slots ≡ (i + slots) % slots
    around h = ground arith

    later : (j == i) ≡ false → suc i ≤ j
    later h = ground arith

-- What comes behind a run that does not take all of them is empty.
pub complete_stops :
    (buf : List Block) (i n : ℕ)
    → length (complete (cyclic buf i n)) < n
    → check_empty (slot buf ((i + length (complete (cyclic buf i n))) % slots)) ≡ true
unfolding cyclic complete
complete_stops buf i zero h = absurd (omega arith)
complete_stops buf i (suc n) h = elim (Bool-cases (check_empty (slot buf (i % slots)))) [
  | inl gone ↦
      rw gone
        (ap (λ k. check_empty (slot buf (k % slots))) {x = i + 0} {y = i} (omega arith) ∙ gone)
  | inr there ↦ rw there (
      ap (λ k. check_empty (slot buf (k % slots)))
        {x = i + suc (length (complete (cyclic buf (suc i) n)))}
        {y = suc i + length (complete (cyclic buf (suc i) n))} (omega arith)
      ∙ complete_stops buf (suc i) n (shorter there))
]
  where
    shorter :
        check_empty (slot buf (i % slots)) ≡ false → length (complete (cyclic buf (suc i) n)) < n
    shorter there = ground arith
