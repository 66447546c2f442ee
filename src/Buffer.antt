-- ===== src/Buffer.antt =====
-- The block buffers of tcpd.c: SEND_RECV_BUF_SIZE blocks of BUFFSIZE bytes each, block `i` at
-- byte `i * BUFFSIZE`, and `checkEmpty`.
pub mod Runs
pub mod Stores
use osu_cse.Base.{ℕ, zero, suc, ◌+◌, ◌%◌, Bool, true, false, ◌==◌, if◌then◌else◌}
use osu_cse.Base.{List, [], ◌∷◌, ◌++◌, length, get_or, set, drop, replicate}

abbrev pub Block : Type 0
Block = List ℕ

abbrev pub buff_size : ℕ
buff_size = 1000

-- SEND_RECV_BUF_SIZE
abbrev pub slots : ℕ
slots = 64

-- WINDOW
abbrev pub window : ℕ
window = 20

unfoldable pub blank : Block
blank = replicate buff_size 0

-- `buffer[i] & 0xff` on a char is zero only for a zero byte.
unfoldable pub check_empty : Block → Bool
check_empty [] = true
check_empty (byte ∷ rest) = if byte == 0 then check_empty rest else false

abbrev pub slot : List Block → ℕ → Block
slot buf i = get_or buf i []

-- `memcpy` of `body` to the start of a block.
abbrev pub overlay : Block → Block → Block
overlay body block = body ++ drop (length body) block

-- `bzero` of `n` blocks from block `i` on.
unfoldable pub clear : List Block → ℕ → ℕ → List Block
clear buf i zero = buf
clear buf i (suc n) = clear (set buf i blank) (suc i) n
