-- ===== src/Count/Ending.antt =====
-- That the loop of `main` ends, and where it does not.
use osu_cse.Base.{ℕ, zero, suc, ◌+◌, ◌-◌, ◌%◌, ◌^◌, ◌≤◌, ◌<◌, ◌≡◌, refl, ap, ◌∙◌, arith}
use osu_cse.Base.{List, [], ◌∷◌, length, drop, length-drop, some}
use osu_cse.Bytes.{c_string}
use osu_cse.Count.{fgets, round, printed, count_from, count_file}

pub length-fgets_le :
    (room : ℕ) (rest : List ℕ)
    → (length (fgets room rest) ≤ room) × (length (fgets room rest) ≤ length rest)
unfolding fgets
length-fgets_le zero rest = omega arith
length-fgets_le (suc room) [] = omega arith
length-fgets_le (suc room) (c ∷ rest) = ground (arith, length-fgets_le room rest)

fgets-cons : (room c : ℕ) (rest : List ℕ) → 1 ≤ length (fgets (suc room) (c ∷ rest))
unfolding fgets
fgets-cons room c rest = ground arith

length-c_string_le : (str : List ℕ) → length (c_string str) ≤ length str
unfolding c_string
length-c_string_le [] = omega arith
length-c_string_le (c ∷ str) = ground (arith, length-c_string_le str)

-- A round goes on from where it started by one byte at least, if the target is shorter than the
-- buffer, and not past what it read.
round_advances :
    (target str : List ℕ) (pos count : ℕ)
    → length target < 1000
    → 1 ≤ length str
    → length str ≤ 1000
    → (pos < (round target (pos + length str) count str).0)
      × ((round target (pos + length str) count str).0 ≤ pos + length str)
unfolding round
round_advances target str pos count h one most = ground (arith, length-c_string_le str)

pub count_from-end :
    (file target : List ℕ) (fuel pos count : ℕ)
    → fgets 1000 (drop pos file) ≡ []
    → count_from file target (suc fuel) (pos, count) ≡ some (printed (pos, count))
unfolding count_from
count_from-end file target fuel pos count h = rw (h, count_from)

pub count_from-round :
    (file target : List ℕ) (fuel pos count c : ℕ) (str : List ℕ)
    → fgets 1000 (drop pos file) ≡ c ∷ str
    → count_from file target (suc fuel) (pos, count)
      ≡ count_from file target fuel (round target (pos + length (c ∷ str)) count (c ∷ str))
unfolding count_from
count_from-round file target fuel pos count c str h = rw (h, count_from)

-- What `fgets` does at a position: it reads nothing only at the end of the file.
reads :
    (file : List ℕ) (pos : ℕ)
    → pos ≤ length file
    → (length (fgets 1000 (drop pos file)) ≤ 1000)
      × (pos + length (fgets 1000 (drop pos file)) ≤ length file)
reads file pos h = omega (arith, length-fgets_le 1000 (drop pos file), length-drop {A = ℕ} pos file)

nothing_left :
    (file : List ℕ) (pos : ℕ)
    → fgets 1000 (drop pos file) ≡ []
    → pos ≤ length file
    → pos ≡ length file
nothing_left file pos e h = go (drop pos file) e (length-drop {A = ℕ} pos file)
  where
    go :
        (rest : List ℕ) → fgets 1000 rest ≡ [] → length rest ≡ length file - pos → pos ≡ length file
    go [] e l = omega (arith, h)
    go (c ∷ rest) e l = absurd (omega (arith, fgets-cons 999 c rest, ap length e))

ends :
    (file target : List ℕ) (fuel pos count : ℕ)
    → length target < 1000
    → length file < 2 ^ 31
    → pos ≤ length file
    → length file - pos < fuel
    → (c : ℕ) × (count_from file target fuel (pos, count) ≡ some (length file, c))
ends file target zero pos count h small in_file enough = absurd (omega arith)
ends file target (suc fuel) pos count h small in_file enough =
    step (fgets 1000 (drop pos file)) refl (ends file target fuel)
  where
    step :
        (got : List ℕ)
        → fgets 1000 (drop pos file) ≡ got
        → ((p n : ℕ)
            → length target < 1000
            → length file < 2 ^ 31
            → p ≤ length file
            → length file - p < fuel
            → (c : ℕ) × (count_from file target fuel (p, n) ≡ some (length file, c)))
        → (c : ℕ) × (count_from file target (suc fuel) (pos, count) ≡ some (length file, c))
    step [] e ih = (
      count % 2 ^ 32,
      count_from-end file target fuel pos count e
          ∙ ap (λ p. some (p, count % 2 ^ 32)) {x = pos % 2 ^ 32}
              (omega (arith, nothing_left file pos e in_file, small)),
    )
    step (c ∷ str) e ih =
        let after : ℕ × ℕ = round target (pos + length (c ∷ str)) count (c ∷ str) in
        let size : length (fgets 1000 (drop pos file)) ≡ length (c ∷ str) = ap length e in
        let moved =
          round_advances target (c ∷ str) pos count h (omega arith)
            (omega (arith, size, reads file pos in_file)) in
        let (n, done) =
          ih after.0 after.1 h small (omega (arith, moved, size, reads file pos in_file))
            (omega (arith, moved, enough, in_file, size, reads file pos in_file)) in
        (n, count_from-round file target fuel pos count c str e ∙ done)

-- For a target of fewer than STRLEN - 1 bytes the program ends, within one round for each byte of
-- the file and one more, and the size that it writes is the file's, for a file shorter than 2 ^ 31
-- bytes.
pub count_file_ends :
    (file target : List ℕ)
    → length target < 1000
    → length file < 2 ^ 31
    → (count : ℕ) × (count_file (suc (length file)) file target ≡ some (length file, count))
unfolding count_file
count_file_ends file target h small =
    ends file target (suc (length file)) 0 0 h small (omega arith) (omega arith)
