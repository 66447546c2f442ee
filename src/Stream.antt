-- ===== src/Stream.antt =====
-- The file transfer of lab2 over a TCP connection: what ftpc.c sends, and what ftps.c writes of the
-- pieces in which the bytes come out of the connection.
pub mod Names
pub mod Pieces
mod Tests
use osu_cse.Base.{ℕ, zero, suc, ◌+◌, ◌-◌, ◌==◌, if◌then◌else◌}
use osu_cse.Base.{List, [], ◌∷◌, ◌++◌, length, take, drop, get_or}
use osu_cse.Bytes.{int_bytes, from_bytes, strncpy, c_string}
use osu_cse.Base.{Option, ◌>>=◌}
use osu_cse.Ftp.Paths.{text_in, strcat, dir_size, receive_dir, dir_end}
use osu_cse.Ftp.{Received, finished, waiting, write_before}

abbrev pub buff_size : ℕ
buff_size = 4096

abbrev pub file_name_size : ℕ
file_name_size = 20

abbrev pub file_bytes_size : ℕ
file_bytes_size = 4

abbrev pub slash : ℕ
slash = 47

-- The loop over `t` from the end of the path, which looks for a slash: `t + 1` afterwards.
pub after_slash : List ℕ → ℕ → ℕ
after_slash path zero = 0
after_slash path (suc t) = if get_or path t 0 == slash then suc t else after_slash path t

-- `filename_1`, what stands behind the last slash.
pub base_name : List ℕ → List ℕ
base_name path = drop (after_slash path (length path)) path

-- The first message, for a path of fewer than FILE_NAME_SIZE bytes.
unfoldable pub header : ℕ → List ℕ → List ℕ
header size path =
    strncpy (int_bytes size) file_bytes_size
    ++ strncpy (base_name path) (buff_size - file_bytes_size)

-- The loop over `fread`, with fuel: a block for each BUFFSIZE bytes, until nothing is left.
pub blocks_of : ℕ → List ℕ → List (List ℕ)
blocks_of zero file = []
blocks_of (suc fuel) [] = []
blocks_of (suc fuel) (byte ∷ file) =
    take buff_size (byte ∷ file) ∷ blocks_of fuel (drop buff_size (byte ∷ file))

-- All calls of `send` for a file, one behind the other.
pub send_file : List ℕ → List ℕ → List (List ℕ)
send_file file path = header (length file) path ∷ blocks_of (length file) file

-- The name in `filename`, which is not cleared, and the copy of the bytes in front of the zero writes
-- no zero behind them; `none` is a read beyond the array.
pub received_name : List ℕ → List ℕ → Option (List ℕ)
received_name filename buf =
    let name = take file_name_size (c_string (drop file_bytes_size buf)) in
    text_in (name ++ drop (length name) filename)

-- The path that the server opens.
pub stored_path : List ℕ → List ℕ → Option (List ℕ)
stored_path filename buf = do
  name ← received_name filename buf
  dir ← strcat dir_size receive_dir dir_end
  strcat dir_size dir name

-- The loop of the server. A piece is what one `recv` gives, and is empty once the client is gone.
pub receive_pieces : ℕ → List (List ℕ) → Received
receive_pieces size [] = if size == 0 then finished [] else waiting []
receive_pieces size (piece ∷ pieces) =
    let rest = receive_pieces (size - length piece) pieces in
    if size == 0 then finished [] else write_before piece rest

-- The server from its first message, which `MSG_WAITALL` keeps whole.
pub receive_stream : List ℕ → List (List ℕ) → Received
receive_stream buf pieces = receive_pieces (from_bytes (take file_bytes_size buf)) pieces
