-- ===== src/Ftp/Paths.antt =====
-- The name of the file in ftpc.c and ftps.c of project1, in arrays of a fixed size, and the path under
-- which ftps.c stores the file.
pub mod Laws
use osu_cse.Base.{ℕ, ◌+◌, ◌-◌, ◌==◌, ltb, if◌then◌else◌, Option, none, some, ◌>>=◌}
use osu_cse.Base.{List, [], ◌∷◌, ◌++◌, length, take, drop, replicate}
use osu_cse.Bytes.{strncpy}
use osu_cse.Buffer.{Block}
use osu_cse.Ftp.{file_bytes_size, file_name_size, header}

-- The text in an array, or none if it has no zero byte: `strlen` and others read on behind it.
unfoldable pub text_in : List ℕ → Option (List ℕ)
text_in [] = none
text_in (c ∷ rest) = if c == 0 then some [] else text_in rest >>= λ text. some (c ∷ text)

-- The array `filename` of either program, once `bytes` are copied into it after `bzero`.
abbrev pub file_name : List ℕ → List ℕ
file_name bytes = bytes ++ replicate (file_name_size - length bytes) 0

-- `strlen(x) > FILE_NAME_SIZE ? FILE_NAME_SIZE : strlen(x)`
abbrev pub name_length : List ℕ → ℕ
name_length text = if ltb file_name_size (length text) then file_name_size else length text

-- The first message of ftpc for a file of that size and its third argument, which is also the name
-- that ftpc opens.
pub announce : ℕ → List ℕ → Option Block
announce size arg = do
  name ← text_in (file_name (strncpy arg (name_length arg)))
  some (header size name)

-- `strcat` in an array of `n` bytes, which has to hold the zero byte too.
abbrev pub strcat : ℕ → List ℕ → List ℕ → Option (List ℕ)
strcat n text more = if ltb (length text + length more) n then some (text ++ more) else none

abbrev pub dir_size : ℕ
dir_size = 30

-- "./receive"
abbrev pub receive_dir : List ℕ
receive_dir = 46 ∷ 47 ∷ 114 ∷ 101 ∷ 99 ∷ 101 ∷ 105 ∷ 118 ∷ 101 ∷ []

-- "/"
abbrev pub dir_end : List ℕ
dir_end = 47 ∷ []

-- The path that ftps opens after its first message.
pub stored_path : Block → Option (List ℕ)
stored_path buf = do
  sent ← text_in (drop file_bytes_size buf)
  filename ← text_in (file_name (take (name_length sent) sent))
  dir ← strcat dir_size receive_dir dir_end
  strcat dir_size dir filename
