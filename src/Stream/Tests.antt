-- ===== src/Stream/Tests.antt =====
-- A file of three bytes in two pieces, and the theorems at it.
use osu_cse.Base.{ℕ, List, [], ◌∷◌, ◌++◌, ◌≡◌, refl, replicate, arith}
use osu_cse.Bytes.Laws.{below_zero_byte}
use osu_cse.Ftp.{finished, waiting}
use osu_cse.Base.{drop, some}
use osu_cse.Ftp.Paths.{text_in, receive_dir, dir_end}
use osu_cse.Stream.{
  blocks_of, send_file, stored_path, after_slash, base_name, header, receive_stream,
}
use osu_cse.Stream.Names.{stored_path-header}
use osu_cse.Stream.Pieces.{length-header, receive_stream-pieces, receive_stream-closed}

abbrev file : List ℕ
file = 10 ∷ 20 ∷ 30 ∷ []

abbrev pieces : List (List ℕ)
pieces = (10 ∷ []) ∷ (20 ∷ 30 ∷ []) ∷ []

-- "a/b/c"
abbrev path : List ℕ
path = 97 ∷ 47 ∷ 98 ∷ 47 ∷ 99 ∷ []

last_part : base_name path ≡ 99 ∷ []
unfolding base_name after_slash
last_part = refl

receive_stream-pieces_example : receive_stream (header 3 path) pieces ≡ finished file
unfolding below_zero_byte send_file blocks_of
receive_stream-pieces_example =
    receive_stream-pieces file path (header 3 path) pieces (omega arith) refl (length-header 3 path)
      refl

-- Behind a name of one byte the variable held "y".
left_over : text_in (drop 1 (120 ∷ 121 ∷ 0 ∷ [])) ≡ some (121 ∷ [])
unfolding text_in
left_over = refl

name_and_rest :
    stored_path (120 ∷ 121 ∷ 0 ∷ []) (header 3 path)
    ≡ some ((receive_dir ++ dir_end) ++ ((99 ∷ []) ++ (121 ∷ [])))
name_and_rest =
    stored_path-header 3 (97 ∷ 47 ∷ 98 ∷ []) (99 ∷ []) (120 ∷ 121 ∷ 0 ∷ []) (121 ∷ [])
      ((λ e. absurd (omega (arith, e))), ((λ e. absurd (omega (arith, e))), tt)) left_over
      (omega arith)

receive_stream-closed_example :
    receive_stream (header 3 path) (((10 ∷ []) ∷ []) ++ replicate 7 []) ≡ waiting (10 ∷ [])
unfolding below_zero_byte
receive_stream-closed_example =
    receive_stream-closed file path ((10 ∷ []) ∷ []) 7 (omega arith) (omega arith)
