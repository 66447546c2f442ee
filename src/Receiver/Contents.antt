-- ===== src/Receiver/Contents.antt =====
-- What the receiver's buffer holds of a row of blocks, whose block `j` comes as frame `j` modulo 64.
use osu_cse.Base.{ℕ, zero, suc, ◌+◌, ◌%◌, ◌≤◌, ◌<◌, ◌≡◌, ◌≢◌, refl, sym, ap, ap₂, ◌∙◌, arith}
use osu_cse.Base.{true, false, inl, inr, Bool-cases, ltb, ◌==◌, ◌⊎◌}
use osu_cse.Base.{List, [], ◌∷◌, length, set, get_or-set_ne, length-set}
use osu_cse.Base.{length-replicate, replicate}
use mathlib.Core.Path.{subst}
use osu_cse.Base.{◌-◌}
use osu_cse.Buffer.{Block, buff_size, slots, window, blank, slot, check_empty, overlay}
use osu_cse.Buffer.Runs.{
  cyclic, complete, emptied, slot-emptied_other, slot-emptied_self, complete_stops,
}
use osu_cse.Buffer.Stores.{blank_empty, blank_fits, slot-stored, length-emptied, slot-replicate}
use osu_cse.Receiver.Forms.{run-le}
use osu_cse.Receiver.Row.{blocks_from}

pub blank_awaits : check_empty (slot (replicate slots blank) (0 % slots)) ≡ true
blank_awaits = blank_empty

module _ (f : ℕ → Block) where
  -- The buffer's block for `j` is empty, or it is block `j` of the row, if the window has room for it.
  abbrev pub IsPlace : List Block → ℕ → ℕ → Type 0
  IsPlace buf n j =
      (check_empty (slot buf (j % slots)) ≡ true)
      ⊎ ((j < n + window) × (slot buf (j % slots) ≡ f j))

  -- The window waits for block `n`.
  pub record IsRow (buf : List Block) (n : ℕ) : Type 0 where
    pub size : length buf ≡ slots
    pub place : (j : ℕ) → n ≤ j → j < n + slots → IsPlace buf n j
    pub fits : (j : ℕ) → n ≤ j → j < n + slots → length (slot buf (j % slots)) ≤ buff_size

  -- The frames that are complete are those of the row.
  pub complete-blocks_from :
      (buf : List Block) (n m : ℕ)
      → ((j : ℕ)
          → n ≤ j
          → j < n + m
          → (check_empty (slot buf (j % slots)) ≡ true) ⊎ (slot buf (j % slots) ≡ f j))
      → complete (cyclic buf n m) ≡ blocks_from f n (length (complete (cyclic buf n m)))
  unfolding cyclic complete
  complete-blocks_from buf n zero h = refl
  complete-blocks_from buf n (suc m) h = elim (Bool-cases (check_empty (slot buf (n % slots)))) [
    | inl gone ↦ rw gone
    | inr there ↦ rw there (
        ap₂ ◌∷◌ (this there (h n (omega arith) (omega arith)))
          (complete-blocks_from buf (suc n) m (λ j above below. h j (omega arith) (omega arith))))
  ]
    where
      this :
          check_empty (slot buf (n % slots)) ≡ false
          → (check_empty (slot buf (n % slots)) ≡ true) ⊎ (slot buf (n % slots) ≡ f n)
          → slot buf (n % slots) ≡ f n
      this there (inl gone) = absurd (cc)
      this there (inr same) = same

  pub IsRow-complete :
      (buf : List Block) (n : ℕ)
      → IsRow buf n
      → complete (cyclic buf n window) ≡ blocks_from f n (length (complete (cyclic buf n window)))
  IsRow-complete buf n row =
      complete-blocks_from buf n window
        (λ j above below. forget j (row.place j above (omega arith)))
    where
      forget :
          (j : ℕ)
          → IsPlace buf n j
          → (check_empty (slot buf (j % slots)) ≡ true) ⊎ (slot buf (j % slots) ≡ f j)
      forget j (inl gone) = inl gone
      forget j (inr (below, same)) = inr same

  -- Once the first `m` blocks are emptied, the window waits for the block behind them.
  pub IsRow-emptied :
      (buf : List Block) (n m : ℕ) → IsRow buf n → m ≤ window → IsRow (emptied buf n m) (n + m)
  IsRow-emptied buf n m row le = record {
    size = length-emptied m n buf ∙ row.size;
    place = λ j above below. elim (Bool-cases (ltb j (n + slots))) [
      | inl old ↦ kept j above (lower old) (row.place j (omega arith) (lower old))
      | inr new ↦ inl (ap check_empty (wiped j new above below) ∙ blank_empty)
    ];
    fits = λ j above below. elim (Bool-cases (ltb j (n + slots))) [
      | inl old ↦
          subst (λ b. length b ≤ buff_size) (sym (slot-emptied_other m n j buf above (lower old)))
            (row.fits j (omega arith) (lower old))
      | inr new ↦ subst (λ b. length b ≤ buff_size) (sym (wiped j new above below)) blank_fits
    ];
  }
    where
      lower : {j : ℕ} → ltb j (n + slots) ≡ true → j < n + slots
      lower h = ground arith

      kept :
          (j : ℕ)
          → n + m ≤ j
          → j < n + slots
          → IsPlace buf n j
          → IsPlace (emptied buf n m) (n + m) j
      kept j above below (inl gone) =
          inl (ap check_empty (slot-emptied_other m n j buf above below) ∙ gone)
      kept j above below (inr (near, same)) =
          inr (omega arith, slot-emptied_other m n j buf above below ∙ same)

      not_below : (j : ℕ) → ltb j (n + slots) ≡ false → n + slots ≤ j
      not_below j h = ground arith

      wiped_at :
          (j : ℕ) → n + slots ≤ j → j < n + m + slots → slot (emptied buf n m) (j % slots) ≡ blank
      wiped_at j above below =
          let i : ℕ = j - slots in
          ap (slot (emptied buf n m)) {x = j % slots} {y = i % slots} (omega arith)
          ∙ slot-emptied_self m n i buf row.size (omega arith) (omega arith) (omega arith)

      wiped :
          (j : ℕ)
          → ltb j (n + slots) ≡ false
          → n + m ≤ j
          → j < n + m + slots
          → slot (emptied buf n m) (j % slots) ≡ blank
      wiped j new above below = wiped_at j (not_below j new) below

  -- What may come as block `j`: this block, or zeros.
  abbrev pub IsBody : ℕ → Block → Type 0
  IsBody j body = (length body ≡ buff_size) × ((check_empty body ≡ true) ⊎ (body ≡ f j))

  -- Block `j` of the row, or zeros, are stored in an empty place of the window.
  pub IsRow-stored :
      (buf : List Block) (n j : ℕ) (body : Block)
      → IsBody j body
      → IsRow buf n
      → n ≤ j
      → j < n + window
      → IsRow (set buf (j % slots) (overlay body (slot buf (j % slots)))) n
  IsRow-stored buf n j body of row above below = record {
    size = length-set buf (j % slots) _ ∙ row.size;
    place = λ i low high. elim (Bool-cases (i == j)) [
      | inl same ↦ here i (equal i same) of.1
      | inr other ↦ moved_on i low high other (row.place i low high)
    ];
    fits = λ i low high. elim (Bool-cases (i == j)) [
      | inl same ↦
          subst (λ b. length b ≤ buff_size)
            (sym (ap (λ k. slot written (k % slots)) (equal i same) ∙ stored_block))
            (omega (arith, of.0))
      | inr other ↦
          subst (λ b. length b ≤ buff_size) (sym (elsewhere i low high other)) (row.fits i low high)
    ];
  }
    where
      written : List Block
      written = set buf (j % slots) (overlay body (slot buf (j % slots)))

      equal : (i : ℕ) → (i == j) ≡ true → i ≡ j
      equal i h = ground arith

      stored_block : slot written (j % slots) ≡ body
      stored_block =
          slot-stored buf (j % slots) body (omega (arith, row.size))
            (omega (arith, of.0, row.fits j above (omega arith)))

      here : (i : ℕ) → i ≡ j → (check_empty body ≡ true) ⊎ (body ≡ f j) → IsPlace written n i
      here i e (inl gone) =
          inl (
            ap (λ k. check_empty (slot written (k % slots))) e ∙ ap check_empty stored_block ∙ gone)
      here i e (inr same) = inr (
        omega (arith, e),
        ap (λ k. slot written (k % slots)) e ∙ stored_block ∙ same ∙ ap f (sym e),
      )

      differs : (i : ℕ) → (i == j) ≡ false → i ≢ j
      differs i h = ground arith

      apart : (i : ℕ) → n ≤ i → i < n + slots → (i == j) ≡ false → j % slots ≢ i % slots
      apart i low high other e = differs i other (omega (arith, e))

      elsewhere :
          (i : ℕ)
          → n ≤ i
          → i < n + slots
          → (i == j) ≡ false
          → slot written (i % slots) ≡ slot buf (i % slots)
      elsewhere i low high other =
          get_or-set_ne buf (j % slots) (i % slots) _ [] (apart i low high other)

      moved_on :
          (i : ℕ) → n ≤ i → i < n + slots → (i == j) ≡ false → IsPlace buf n i → IsPlace written n i
      moved_on i low high other (inl gone) =
          inl (ap check_empty (elsewhere i low high other) ∙ gone)
      moved_on i low high other (inr (near, same)) = inr (near, elsewhere i low high other ∙ same)

  pub IsRow-blank : IsRow (replicate slots blank) 0
  IsRow-blank = record {
    size = length-replicate slots blank;
    place = λ j low high.
        inl (ap check_empty (slot-replicate slots (j % slots) (omega arith)) ∙ blank_empty);
    fits = λ j low high.
        subst (λ b. length b ≤ buff_size) (sym (slot-replicate slots (j % slots) (omega arith)))
          blank_fits;
  }

  -- What is waited for after the complete blocks were sent on is not there.
  pub IsRow-awaits :
      (buf : List Block) (n : ℕ)
      → IsRow buf n
      → check_empty (
          slot
            (emptied buf n (length (complete (cyclic buf n window))))
            ((n + length (complete (cyclic buf n window))) % slots))
        ≡ true
  IsRow-awaits buf n row =
      ap check_empty
        (slot-emptied_other m n (n + m) buf (omega arith) (omega (arith, run-le buf n window)))
      ∙ elim (Bool-cases (ltb m window)) [
        | inl short ↦ complete_stops buf n window (below short)
        | inr all ↦
            behind all (row.place (n + m) (omega arith) (omega (arith, run-le buf n window)))
      ]
    where
      m : ℕ
      m = length (complete (cyclic buf n window))

      below : ltb m window ≡ true → m < window
      below h = ground arith

      above : ltb m window ≡ false → window ≤ m
      above h = ground arith

      behind :
          ltb m window ≡ false
          → IsPlace buf n (n + m)
          → check_empty (slot buf ((n + m) % slots)) ≡ true
      behind all (inl gone) = gone
      behind all (inr (near, same)) = absurd (omega (arith, above all))
