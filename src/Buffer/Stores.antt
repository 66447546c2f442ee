-- ===== src/Buffer/Stores.antt =====
-- What is read of a buffer after a block was written to it, or of one that is blank.
use osu_cse.Base.{ℕ, zero, suc, ◌%◌, ◌≤◌, ◌<◌, ◌≡◌, refl, ap, ◌∙◌, arith}
use osu_cse.Base.{true, inl, inr, Bool-cases, ◌==◌, ap₂}
use mathlib.Core.Bool.{false≢true}
use osu_cse.Base.{List, [], ◌∷◌, ◌++◌, length, drop, set, get_or-set_self, length-set}
use osu_cse.Base.{length-replicate, replicate}
use mathlib.Core.List.{append-nil}
use osu_cse.Buffer.{Block, buff_size, slots, blank, slot, check_empty, overlay}
use osu_cse.Buffer.Runs.{emptied}

pub blank_empty : check_empty blank ≡ true
unfolding blank check_empty
blank_empty = refl

pub length-blank : length blank ≡ buff_size
unfolding blank
length-blank = length-replicate {A = ℕ} buff_size 0

pub blank_fits : length blank ≤ buff_size
unfolding blank
blank_fits = omega (arith, length-replicate {A = ℕ} buff_size 0)

drop_all : (xs : Block) (n : ℕ) → length xs ≤ n → drop n xs ≡ []
drop_all [] zero h = refl
drop_all [] (suc n) h = refl
drop_all (x ∷ xs) zero h = absurd (omega arith)
drop_all (x ∷ xs) (suc n) h = drop_all xs n (omega arith)

pub overlay_whole : (body block : Block) → length block ≤ length body → overlay body block ≡ body
overlay_whole body block h = ap (λ l. body ++ l) (drop_all block (length body) h) ∙ append-nil body

empty_zeros : (xs : Block) → check_empty xs ≡ true → xs ≡ replicate (length xs) 0
unfolding check_empty
empty_zeros [] gone = refl
empty_zeros (x ∷ xs) gone = elim (Bool-cases (x == 0)) [
  | inl zero_byte ↦
      ap₂ (λ y ys. y ∷ ys) (is_zero x zero_byte) (empty_zeros xs (rw zero_byte at gone))
  | inr other ↦ absurd (false≢true (rw other at gone))
]
  where
    is_zero : (x : ℕ) → (x == 0) ≡ true → x ≡ 0
    is_zero x e = ground arith

-- A message over an empty block leaves the same as over a blank one.
pub overlay-empty :
    (body block : Block)
    → check_empty block ≡ true
    → length block ≡ buff_size
    → overlay body block ≡ overlay body blank
unfolding blank
overlay-empty body block gone full =
    ap (λ l. body ++ drop (length body) l) (empty_zeros block gone ∙ ap (λ n. replicate n 0) full)

-- A body that is stored over a block that is not longer.
pub slot-stored :
    (buf : List Block) (k : ℕ) (body : Block)
    → k < length buf
    → length (slot buf k) ≤ length body
    → slot (set buf k (overlay body (slot buf k))) k ≡ body
slot-stored buf k body inside h =
    get_or-set_self buf k _ [] inside ∙ overlay_whole body (slot buf k) h

pub length-emptied : (n i : ℕ) (buf : List Block) → length (emptied buf i n) ≡ length buf
unfolding emptied
length-emptied zero i buf = refl
length-emptied (suc n) i buf =
    length-emptied n (suc i) (set buf (i % slots) blank) ∙ length-set buf (i % slots) blank

pub slot-replicate : (n i : ℕ) → i < n → slot (replicate n blank) i ≡ blank
slot-replicate zero i h = absurd (omega arith)
slot-replicate (suc n) zero h = refl
slot-replicate (suc n) (suc i) h = slot-replicate n i (omega arith)
