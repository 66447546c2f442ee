-- ===== src/Ftp/Tests.antt =====
-- Runs of the file transfer, and its theorems at a file of three bytes and at one of 256.
use osu_cse.Base.{ℕ, List, [], ◌∷◌, ◌≡◌, refl, take, arith}
use osu_cse.Ftp.{finished, waiting, receive_blocks}
use osu_cse.Base.{◌++◌, some, none}
use osu_cse.Ftp.{header}
use osu_cse.Ftp.Paths.{text_in, announce, stored_path, receive_dir, dir_end}
use osu_cse.Ftp.Paths.Laws.{IsText, file_name-kept, long_name_overruns}

abbrev file : List ℕ
file = 10 ∷ 20 ∷ 30 ∷ []

abbrev name : List ℕ
name = 65 ∷ []

two_blocks : receive_blocks 3 (take 2 file ∷ file ∷ []) ≡ finished (10 ∷ 20 ∷ 10 ∷ [])
unfolding receive_blocks
two_blocks = refl

cut_short : receive_blocks 5 (take 2 file ∷ []) ≡ waiting (10 ∷ 20 ∷ [])
unfolding receive_blocks
cut_short = refl

-- "../a", a name that leaves the directory.
abbrev outside : List ℕ
outside = 46 ∷ 46 ∷ 47 ∷ 97 ∷ []

file_name-kept_example :
    (announce 3 outside ≡ some (header 3 outside))
    × (stored_path (header 3 outside) ≡ some ((receive_dir ++ dir_end) ++ outside))
file_name-kept_example =
    file_name-kept outside (omega arith, (omega arith, (omega arith, (omega arith, tt)))) 3
      (omega arith)

abbrev twenty : List ℕ
twenty =
    1 ∷ 2 ∷ 3 ∷ 4 ∷ 5 ∷ 6 ∷ 7 ∷ 8 ∷ 9 ∷ 10 ∷ 11 ∷ 12 ∷ 13 ∷ 14 ∷ 15 ∷ 16 ∷ 17 ∷ 18 ∷ 19 ∷ 20 ∷ []

up_to_zero : text_in (3 ∷ 4 ∷ 0 ∷ 5 ∷ []) ≡ some (3 ∷ 4 ∷ [])
unfolding text_in
up_to_zero = refl

long_name_overruns_example : (announce 3 twenty ≡ none) × (stored_path (header 3 twenty) ≡ none)
long_name_overruns_example = long_name_overruns twenty nonzero 3 (omega arith) (omega arith)
  where
    nonzero : IsText twenty
    nonzero = ground arith
