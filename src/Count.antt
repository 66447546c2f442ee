-- ===== src/Count.antt =====
-- lab1/count.c: the size of a text file and the number of times that a text stands in it. The file
-- is read by `fgets` in pieces of STRLEN - 1 bytes at most, none of which goes past a newline.
pub mod Matches
pub mod Ending
pub mod Lines
mod Tests
use osu_cse.Base.{ℕ, zero, suc, ◌+◌, ◌-◌, ◌%◌, ◌^◌, ◌==◌, ◌&&◌, ltb, if◌then◌else◌}
use osu_cse.Base.{List, [], ◌∷◌, length, drop, Option, none, some}
use osu_cse.Bytes.{c_string}

abbrev pub strlen_limit : ℕ
strlen_limit = 1001

abbrev pub newline : ℕ
newline = 10

-- The bytes that `fgets` reads, `room` of them at most.
pub fgets : ℕ → List ℕ → List ℕ
fgets zero rest = []
fgets (suc room) [] = []
fgets (suc room) (c ∷ rest) = if c == newline then c ∷ [] else c ∷ fgets room rest

-- The loop over `j` of `compare`: how far `str`, from `i` on, agrees with the target.
pub agree : List ℕ → List ℕ → ℕ
agree [] target = 0
agree (x ∷ str) [] = 0
agree (x ∷ str) (t ∷ target) = if x == t then suc (agree str target) else 0

-- The loop over `i`, for the rest of `str`.
pub compare : List ℕ → List ℕ → ℕ
compare [] target = 0
compare (x ∷ str) target =
    (if agree (x ∷ str) target == length target then 1 else 0) + compare str target

-- `fseek(fin, -len, SEEK_CUR)`, which fails in front of the file and then moves nothing.
abbrev pub seek_back : ℕ → ℕ → ℕ
seek_back pos len = if ltb pos len then pos else pos - len

-- One round after `fgets`, with the position behind what it read: the new position and count.
unfoldable pub round : List ℕ → ℕ → ℕ → List ℕ → ℕ × ℕ
round target pos count str =
    let c = compare (c_string str) target in
    if length (c_string str) == 1
    then (pos, count)
    else if c == 0 && length (c_string str) == strlen_limit - 1
    then (seek_back pos (length target), count + c)
    else (pos, count + c)

-- `size` and `count` are ints: the 32 bits that are printed.
abbrev pub printed : ℕ × ℕ → ℕ × ℕ
printed (size, count) = (size % 2 ^ 32, count % 2 ^ 32)

-- The loop, with fuel: the size of the file and the count, `none` if it goes on.
pub count_from : List ℕ → List ℕ → ℕ → ℕ × ℕ → Option (ℕ × ℕ)
count_from file target zero state = none
count_from file target (suc fuel) (pos, count) = elim (fgets (strlen_limit - 1) (drop pos file)) [
  | [] ↦ some (printed (pos, count))
  | c ∷ str ↦ count_from file target fuel (round target (pos + length (c ∷ str)) count (c ∷ str))
]

-- The program for one file, with that much fuel.
pub count_file : ℕ → List ℕ → List ℕ → Option (ℕ × ℕ)
count_file fuel file target = count_from file target fuel (0, 0)
