-- ===== src/Count/Lines.antt =====
-- The count for a file of short lines.
use osu_cse.Base.{ℕ, zero, suc, ◌+◌, ◌^◌, ◌≤◌, ◌<◌, ◌≡◌, ◌≢◌, refl, ap, ap₂, ◌∙◌, arith}
use osu_cse.Base.{false, ◌==◌, if◌then◌else◌}
use osu_cse.Base.{List, [], ◌∷◌, ◌++◌, length, length-append, drop, drop-drop, drop-append, some}
use osu_cse.Bytes.{c_string}
use osu_cse.Count.{fgets, compare, round, printed, count_from, count_file, newline}
use osu_cse.Count.Ending.{count_from-end, count_from-round}

-- A line without its newline: no byte of it is a newline or zero.
abbrev pub IsText : List ℕ → Type 0
IsText [] = Unit
IsText (c ∷ text) = (c ≢ newline) × ((c ≢ 0) × IsText text)

-- Lines that fit into the buffer with room to spare.
abbrev pub AreLines : List (List ℕ) → Type 0
AreLines [] = Unit
AreLines (text ∷ texts) = IsText text × ((length text < 999) × AreLines texts)

abbrev pub file_of : List (List ℕ) → List ℕ
file_of [] = []
file_of (text ∷ texts) = (text ++ (newline ∷ [])) ++ file_of texts

-- The matches in all lines but the empty ones, each with its newline.
abbrev pub matches_in : List ℕ → List (List ℕ) → ℕ
matches_in target [] = 0
matches_in target (text ∷ texts) =
    (if length text == 0 then 0 else compare (text ++ (newline ∷ [])) target)
    + matches_in target texts

fgets-line :
    (room : ℕ) (text rest : List ℕ)
    → IsText text
    → length text < room
    → fgets room ((text ++ (newline ∷ [])) ++ rest) ≡ text ++ (newline ∷ [])
unfolding fgets
fgets-line zero text rest h lt = absurd (omega arith)
fgets-line (suc room) [] rest h lt = refl
fgets-line (suc room) (c ∷ text) rest h lt =
    rw (other c h.0) (ap (λ l. c ∷ l) (fgets-line room text rest h.1.1 (omega arith)))
  where
    other : (c : ℕ) → c ≢ newline → (c == newline) ≡ false
    other c h = ground arith

c_string-line :
    (text : List ℕ) → IsText text → c_string (text ++ (newline ∷ [])) ≡ text ++ (newline ∷ [])
unfolding c_string
c_string-line [] h = refl
c_string-line (c ∷ text) h = rw (other c h.1.0) (ap (λ l. c ∷ l) (c_string-line text h.1.1))
  where
    other : (c : ℕ) → c ≢ 0 → (c == 0) ≡ false
    other c h = ground arith

round-line :
    (target text : List ℕ) (pos count : ℕ)
    → IsText text
    → length text < 999
    → round target pos count (text ++ (newline ∷ []))
      ≡ (pos, count + (if length text == 0 then 0 else compare (text ++ (newline ∷ [])) target))
unfolding round
round-line target text pos count h lt =
    rw (c_string-line text h) (ground (arith, length-append text (newline ∷ [])))

count_from-reads :
    (file target : List ℕ) (fuel pos count : ℕ) (got : List ℕ)
    → fgets 1000 (drop pos file) ≡ got
    → 1 ≤ length got
    → count_from file target (suc fuel) (pos, count)
      ≡ count_from file target fuel (round target (pos + length got) count got)
count_from-reads file target fuel pos count [] e h = absurd (omega arith)
count_from-reads file target fuel pos count (c ∷ str) e h =
    count_from-round file target fuel pos count c str e

count_from-lines :
    (file target : List ℕ) (texts : List (List ℕ)) (fuel pos count : ℕ)
    → AreLines texts
    → drop pos file ≡ file_of texts
    → pos + length (file_of texts) ≡ length file
    → length texts < fuel
    → count_from file target fuel (pos, count)
      ≡ some (printed (length file, count + matches_in target texts))
count_from-lines file target texts zero pos count h e size enough = absurd (omega arith)
count_from-lines file target [] (suc fuel) pos count h e size enough =
    count_from-end file target fuel pos count (ap (fgets 1000) e ∙ unfold fgets in refl)
    ∙ ap₂ (λ p c. some (printed (p, c))) (omega (arith, size)) (omega arith)
count_from-lines file target (text ∷ texts) (suc fuel) pos count h e size enough =
    count_from-reads file target fuel pos count (text ++ (newline ∷ []))
      (ap (fgets 1000) e ∙ fgets-line 1000 text (file_of texts) h.0 (omega (arith, h)))
      (omega (arith, one_more))
    ∙ ap (count_from file target fuel) (round-line target text _ count h.0 h.1.0)
    ∙ count_from-lines file target texts fuel (pos + length (text ++ (newline ∷ []))) _ h.1.1
        (drop-drop pos (length (text ++ (newline ∷ []))) file
          ∙ ap (drop (length (text ++ (newline ∷ [])))) e
          ∙ drop-append (text ++ (newline ∷ [])) (file_of texts))
        (omega (arith, size, length-append (text ++ (newline ∷ [])) (file_of texts)))
        (omega (arith, enough))
    ∙ ap (λ c. some (printed (length file, c))) (omega arith)
  where
    one_more : length (text ++ (newline ∷ [])) ≡ length text + 1
    one_more = length-append text (newline ∷ [])

compare-le : (str target : List ℕ) → compare str target ≤ length str
unfolding compare
compare-le [] target = omega arith
compare-le (x ∷ str) target = ground (arith, compare-le str target)

matches_in-le :
    (target : List ℕ) (texts : List (List ℕ)) → matches_in target texts ≤ length (file_of texts)
matches_in-le target [] = omega arith
matches_in-le target (text ∷ texts) = ground (
  arith,
  length-append (text ++ (newline ∷ [])) (file_of texts),
  compare-le (text ++ (newline ∷ [])) target,
  matches_in-le target texts,
)

-- For a file of lines of fewer than STRLEN - 2 bytes with no zero byte, each with its newline, the
-- program counts the matches in all the lines that are not empty, and gives the file's size, for a
-- file shorter than 2 ^ 31 bytes.
pub count_file-lines :
    (texts : List (List ℕ)) (target : List ℕ)
    → AreLines texts
    → length (file_of texts) < 2 ^ 31
    → count_file (suc (length texts)) (file_of texts) target
      ≡ some (length (file_of texts), matches_in target texts)
unfolding count_file
count_file-lines texts target h small =
    count_from-lines (file_of texts) target texts (suc (length texts)) 0 0 h refl (omega arith)
      (omega arith)
    ∙ ap₂ (λ p c. some (p, c)) (omega (arith, small))
        (omega (arith, small, matches_in-le target texts))
