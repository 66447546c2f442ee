-- ===== src/Stream/Pieces.antt =====
-- The transfer does not depend on how the connection cuts the bytes.
use osu_cse.Base.{ℕ, zero, suc, ◌-◌, ◌^◌, ◌<◌, ◌≡◌, refl, sym, ap, ◌∙◌, arith}
use osu_cse.Base.{false, ◌==◌, List, [], ◌∷◌, ◌++◌, length, length-append, take, replicate}
use osu_cse.Bytes.{int_bytes, from_bytes, strncpy, through_strncpy}
use osu_cse.Bytes.Laws.{below_zero_byte, through_strncpy_lem, length-strncpy, take-append_length}
use osu_cse.Ftp.{finished, waiting, write_before}
use osu_cse.Base.{suc, ◌≤◌, drop, length-drop, drop-append_length}
use osu_cse.Stream.{
  buff_size, file_bytes_size, base_name, blocks_of, send_file, header, receive_pieces,
  receive_stream,
}

abbrev pub joined : List (List ℕ) → List ℕ
joined [] = []
joined (piece ∷ pieces) = piece ++ joined pieces

receive_pieces-done : (pieces : List (List ℕ)) → receive_pieces 0 pieces ≡ finished []
unfolding receive_pieces
receive_pieces-done [] = refl
receive_pieces-done (piece ∷ pieces) = refl

receive_pieces-more :
    (size : ℕ) (piece : List ℕ) (pieces : List (List ℕ))
    → 0 < size
    → receive_pieces size (piece ∷ pieces)
      ≡ write_before piece (receive_pieces (size - length piece) pieces)
unfolding receive_pieces
receive_pieces-more size piece pieces h = rw nonzero
  where
    nonzero : (size == 0) ≡ false
    nonzero = ground arith

empty : (xs : List ℕ) → length xs ≡ 0 → xs ≡ []
empty [] h = refl
empty (x ∷ xs) h = absurd (omega arith)

-- All pieces together are as long as the size: all of them are written.
receive_pieces-joined :
    (pieces : List (List ℕ)) (size : ℕ)
    → size ≡ length (joined pieces)
    → receive_pieces size pieces ≡ finished (joined pieces)
receive_pieces-joined pieces zero h =
    receive_pieces-done pieces ∙ ap finished (sym (empty (joined pieces) (sym h)))
receive_pieces-joined [] (suc size) h = absurd (omega arith)
receive_pieces-joined (piece ∷ pieces) (suc size) h =
    receive_pieces-more (suc size) piece pieces (omega arith)
    ∙ ap (write_before piece) (
        receive_pieces-joined pieces (suc size - length piece)
          (omega (arith, h, length-append piece (joined pieces))))

-- The connection is closed early: the loop goes on for ever.
receive_pieces-closed :
    (pieces : List (List ℕ)) (size n : ℕ)
    → length (joined pieces) < size
    → receive_pieces size (pieces ++ replicate n []) ≡ waiting (joined pieces)
receive_pieces-closed [] size zero h = nothing size h
  where
    nothing : (size : ℕ) → 0 < size → receive_pieces size [] ≡ waiting []
    nothing size h = unfold receive_pieces in ground arith
receive_pieces-closed [] size (suc n) h =
    receive_pieces-more size [] (replicate n []) h
    ∙ ap (write_before []) (
        ap (λ s. receive_pieces s (replicate n [])) {x = size - 0} {y = size} (omega arith)
        ∙ receive_pieces-closed [] size n h)
receive_pieces-closed (piece ∷ pieces) size n h =
    receive_pieces-more size piece (pieces ++ replicate n []) (omega (arith, h))
    ∙ ap (write_before piece) (
        receive_pieces-closed pieces (size - length piece) n
          (omega (arith, h, length-append piece (joined pieces))))

size_read :
    (size : ℕ) (path : List ℕ)
    → size < 2 ^ 32
    → from_bytes (take 4 (header size path)) ≡ below_zero_byte size
unfolding header through_strncpy
size_read size path h =
    ap from_bytes
      (take-append_length 4 (strncpy (int_bytes size) 4) _ (length-strncpy (int_bytes size) 4))
    ∙ through_strncpy_lem size h

take-drop : (n : ℕ) (xs : List ℕ) → take n xs ++ drop n xs ≡ xs
take-drop zero xs = refl
take-drop (suc n) [] = refl
take-drop (suc n) (x ∷ xs) = ap (λ l. x ∷ l) (take-drop n xs)

-- The blocks of a file are the file.
joined-blocks_of :
    (fuel : ℕ) (file : List ℕ) → length file ≤ fuel → joined (blocks_of fuel file) ≡ file
unfolding blocks_of
joined-blocks_of zero [] h = refl
joined-blocks_of zero (byte ∷ file) h = absurd (omega arith)
joined-blocks_of (suc fuel) [] h = refl
joined-blocks_of (suc fuel) (byte ∷ file) h =
    ap (λ l. take buff_size (byte ∷ file) ++ l)
      (joined-blocks_of fuel (drop buff_size (byte ∷ file))
        (omega (arith, length-drop buff_size (byte ∷ file))))
    ∙ take-drop buff_size (byte ∷ file)

pub length-header : (size : ℕ) (path : List ℕ) → length (header size path) ≡ buff_size
unfolding header
length-header size path = omega (
  arith,
  length-append (strncpy (int_bytes size) 4) (strncpy (base_name path) 4092),
  length-strncpy (int_bytes size) 4,
  length-strncpy (base_name path) 4092,
)

-- A file shorter than 2 ^ 31 bytes, in whose length no zero byte stands below another byte, arrives
-- whole, in whatever pieces the connection delivers the bytes that ftpc sends, if the first BUFFSIZE
-- bytes come as one, for which the server waits.
pub receive_stream-pieces :
    (file path buf : List ℕ) (pieces : List (List ℕ))
    → length file < 2 ^ 31
    → below_zero_byte (length file) ≡ length file
    → length buf ≡ buff_size
    → buf ++ joined pieces ≡ joined (send_file file path)
    → receive_stream buf pieces ≡ finished file
unfolding receive_stream send_file
receive_stream-pieces file path buf pieces h whole size same =
    ap (λ l. receive_pieces (from_bytes (take file_bytes_size l)) pieces)
      (sym (take-append_length buff_size buf (joined pieces) size)
        ∙ ap (take buff_size) same
        ∙ take-append_length buff_size (header (length file) path) _
            (length-header (length file) path))
    ∙ ap (λ size. receive_pieces size pieces) (size_read (length file) path (omega arith) ∙ whole)
    ∙ receive_pieces-joined pieces (length file) (ap length (sym rest))
    ∙ ap finished rest
  where
    rest : joined pieces ≡ file
    rest =
        sym (drop-append_length buff_size 0 buf (joined pieces) size)
        ∙ ap (drop buff_size) same
        ∙ drop-append_length buff_size 0 (header (length file) path) _
            (length-header (length file) path)
        ∙ joined-blocks_of (length file) file (omega arith)

-- For a file shorter than 2 ^ 31 bytes: if the connection is closed when fewer bytes have come than
-- the part of its length below the lowest zero byte says, the server never stops: after any number of
-- empty reads it is still in its loop.
pub receive_stream-closed :
    (file path : List ℕ) (pieces : List (List ℕ)) (n : ℕ)
    → length file < 2 ^ 31
    → length (joined pieces) < below_zero_byte (length file)
    → receive_stream (header (length file) path) (pieces ++ replicate n [])
      ≡ waiting (joined pieces)
unfolding receive_stream
receive_stream-closed file path pieces n h few =
    ap (λ size. receive_pieces size (pieces ++ replicate n []))
      (size_read (length file) path (omega arith))
    ∙ receive_pieces-closed pieces (below_zero_byte (length file)) n few
