-- ===== src/Ftp.antt =====
-- The file transfer of project1: what ftpc.c sends for a file, and what ftps.c writes of what it
-- receives. tcpd carries each message in a block of BUFFSIZE bytes whose rest is zero.
pub mod Transfer
pub mod Starts
pub mod Paths
mod Tests
use osu_cse.Base.{ℕ, zero, suc, ◌+◌, ◌-◌, ◌==◌, ltb, if◌then◌else◌, List, [], ◌∷◌, ◌++◌, map}
use osu_cse.Base.{length, take, drop, replicate}
use osu_cse.Bytes.{int_bytes, from_bytes, strncpy}
use osu_cse.Buffer.{Block, buff_size, blank, overlay}

abbrev pub file_bytes_size : ℕ
file_bytes_size = 4

abbrev pub file_name_size : ℕ
file_name_size = 20

-- The first message: `strncpy` of the size, then of the name, into a buffer of zeros.
unfoldable pub header : ℕ → List ℕ → Block
header size name =
    strncpy (int_bytes size) file_bytes_size ++ strncpy name (buff_size - file_bytes_size)

-- The loop over `fread`, with fuel: a block for each BUFFSIZE bytes, until nothing is left.
unfoldable pub blocks_of : ℕ → List ℕ → List Block
blocks_of zero file = []
blocks_of (suc fuel) [] = []
blocks_of (suc fuel) (byte ∷ file) =
    take buff_size (byte ∷ file) ∷ blocks_of fuel (drop buff_size (byte ∷ file))

-- The messages for a file; the last may be shorter than the others.
unfoldable pub send_file : List ℕ → List ℕ → List Block
send_file file name = header (length file) name ∷ blocks_of (length file) file

-- A message over a block that was zero.
abbrev pub carried : Block → Block
carried message = overlay message blank

-- The messages as blocks.
unfoldable pub carried_file : List ℕ → List ℕ → List Block
carried_file file name = map carried (send_file file name)

-- What was written: to the end of the file, or so far, with the next `RECV` waiting for ever.
pub data Received : Type 0 where
  finished : List ℕ → Received
  waiting : List ℕ → Received

abbrev pub write_before : List ℕ → Received → Received
write_before written (finished rest) = finished (written ++ rest)
write_before written (waiting rest) = waiting (written ++ rest)

-- `while (size > 0)`; `size -= length` below zero ends it as zero does.
pub receive_blocks : ℕ → List Block → Received
receive_blocks size [] = if size == 0 then finished [] else waiting []
receive_blocks size (buf ∷ blocks) =
    if size == 0
    then finished []
    else write_before (take (if ltb (length buf) size then length buf else size) buf)
        (receive_blocks (size - length buf) blocks)

-- ftps from its first message on, for a size below 2 ^ 31, which is the same as an `int`.
pub receive_file : List Block → Received
receive_file [] = waiting []
receive_file (buf ∷ blocks) = receive_blocks (from_bytes (take file_bytes_size buf)) blocks
