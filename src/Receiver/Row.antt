-- ===== src/Receiver/Row.antt =====
-- A row of blocks, and the parts of it.
use osu_cse.Base.{ℕ, zero, suc, ◌+◌, ◌≡◌, refl, ap, ◌∙◌, arith}
use osu_cse.Base.{List, [], ◌∷◌, ◌++◌, length}
use osu_cse.Buffer.{Block}

module _ (f : ℕ → Block) where
  -- The blocks `i` to `i + n - 1`.
  abbrev pub blocks_from : ℕ → ℕ → List Block
  blocks_from i zero = []
  blocks_from i (suc n) = f i ∷ blocks_from (suc i) n

  pub length-blocks_from : (n i : ℕ) → length (blocks_from i n) ≡ n
  length-blocks_from zero i = refl
  length-blocks_from (suc n) i = ap suc (length-blocks_from n (suc i))

  pub blocks_from-append :
      (m n i : ℕ) → blocks_from i m ++ blocks_from (i + m) n ≡ blocks_from i (m + n)
  blocks_from-append zero n i =
      ap (λ k. blocks_from k n) {x = i + 0} {y = i} (omega arith)
      ∙ ap (blocks_from i) {x = n} {y = 0 + n} (omega arith)
  blocks_from-append (suc m) n i =
      ap (λ l. f i ∷ l)
        (ap (λ k. blocks_from (suc i) m ++ blocks_from k n) {x = i + suc m} {y = suc i + m}
            (omega arith)
          ∙ blocks_from-append m n (suc i))
      ∙ ap (blocks_from i) {x = suc (m + n)} {y = suc m + n} (omega arith)
