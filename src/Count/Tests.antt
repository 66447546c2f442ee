-- ===== src/Count/Tests.antt =====
-- Runs of the count, and its theorems at small files.
use osu_cse.Base.{ℕ, suc, List, [], ◌∷◌, ◌≡◌, length, refl, some, arith}
use osu_cse.Bytes.{c_string}
use osu_cse.Count.{fgets, agree, compare, round, count_from, count_file}
use osu_cse.Count.Matches.{IsCount, compare-IsCount}
use osu_cse.Count.Ending.{count_file_ends}
use osu_cse.Count.Lines.{file_of, matches_in, count_file-lines}

-- "aaa", an empty line and "ba", and the target "aa".
abbrev texts : List (List ℕ)
texts = (97 ∷ 97 ∷ 97 ∷ []) ∷ [] ∷ (98 ∷ 97 ∷ []) ∷ []

abbrev target : List ℕ
target = 97 ∷ 97 ∷ []

overlapping : count_file 4 (file_of texts) target ≡ some (8, 2)
unfolding count_file count_from fgets round c_string compare agree
overlapping = refl

-- The last line has one byte and no newline: it is skipped.
last_skipped : count_file 2 (97 ∷ []) (97 ∷ []) ≡ some (1, 0)
unfolding count_file count_from fgets round c_string compare agree
last_skipped = refl

compare-IsCount_example : IsCount target (97 ∷ 97 ∷ 97 ∷ []) (compare (97 ∷ 97 ∷ 97 ∷ []) target)
compare-IsCount_example = compare-IsCount (97 ∷ 97 ∷ 97 ∷ []) target

count_file_ends_example :
    (count : ℕ) × (count_file (suc (length (file_of texts))) (file_of texts) target
      ≡ some (length (file_of texts), count))
count_file_ends_example = count_file_ends (file_of texts) target (omega arith) (omega arith)

count_file-lines_example :
    count_file 4 (file_of texts) target ≡ some (length (file_of texts), matches_in target texts)
count_file-lines_example = count_file-lines texts target (omega arith) (omega arith)
