-- ===== src/Ftp/Transfer.antt =====
-- What ftps writes of a file that ftpc sends.
use osu_cse.Base.{ℕ, zero, suc, ◌+◌, ◌-◌, ◌%◌, ◌^◌, ◌≤◌, ◌<◌, ◌≡◌, refl, sym, ap, ap₂, ◌∙◌, arith}
use osu_cse.Base.{List, [], ◌∷◌, ◌++◌, map, length, take, drop, length-append, length-drop}
use osu_cse.Base.{inl, inr, Bool-cases, ◌==◌, ltb, if◌then◌else◌, true, false}
use mathlib.Core.List.{append-nil}
use osu_cse.Bytes.{int_bytes, from_bytes, strncpy, through_strncpy}
use osu_cse.Bytes.Laws.{below_zero_byte, through_strncpy_lem, length-strncpy, take-append_length}
use osu_cse.Buffer.{Block, buff_size, blank}
use osu_cse.Buffer.Stores.{overlay_whole, length-blank}
use osu_cse.Ftp.{
  file_bytes_size, header, blocks_of, carried, send_file, carried_file, finished, write_before,
}
use osu_cse.Ftp.{receive_blocks, receive_file}

length-take-le : (n : ℕ) (xs : List ℕ) → length (take n xs) ≤ n
length-take-le zero xs = omega arith
length-take-le (suc n) [] = omega arith
length-take-le (suc n) (x ∷ xs) = omega (arith, length-take-le n xs)

pub length-carried_le :
    (message : List ℕ) → length message ≤ buff_size → length (carried message) ≡ buff_size
length-carried_le message h = omega (
  arith,
  h,
  length-append message (drop (length message) blank),
  length-drop (length message) blank,
  length-blank,
)

pub length-carried : (f : List ℕ) → length (carried (take buff_size f)) ≡ buff_size
length-carried f = length-carried_le (take buff_size f) (length-take-le buff_size f)

take-take_append :
    (s m : ℕ) (f zs : List ℕ) → s ≤ m → s ≤ length f → take s (take m f ++ zs) ≡ take s f
take-take_append zero m f zs h k = refl
take-take_append (suc s) zero f zs h k = absurd (omega arith)
take-take_append (suc s) (suc m) [] zs h k = absurd (omega arith)
take-take_append (suc s) (suc m) (x ∷ f) zs h k =
    ap (λ l. x ∷ l) (take-take_append s m f zs (omega arith) (omega arith))

take-split : (m r : ℕ) (f : List ℕ) → take m f ++ take r (drop m f) ≡ take (m + r) f
take-split zero r f = ap (λ k. take k f) (omega arith)
take-split (suc m) zero [] = sym (ap (λ k. take k []) {x = suc m + zero} {y = suc m} (omega arith))
take-split (suc m) (suc r) [] =
    sym (ap (λ k. take k []) {x = suc m + suc r} {y = suc (m + suc r)} (omega arith))
take-split (suc m) r (x ∷ f) =
    ap (λ l. x ∷ l) (take-split m r f) ∙ ap (λ k. take k (x ∷ f)) {x = suc (m + r)} (omega arith)

-- A block of the loop in ftps, the whole of it or its part up to the size.
receive-step :
    (size : ℕ) (f : List ℕ) (blocks : List Block)
    → 0 < size
    → receive_blocks size (carried (take buff_size f) ∷ blocks)
      ≡ write_before
          (take (if ltb buff_size size then buff_size else size) (carried (take buff_size f)))
          (receive_blocks (size - buff_size) blocks)
unfolding receive_blocks
receive-step size f blocks h = rw (length-carried f, nonzero)
  where
    nonzero : (size == 0) ≡ false
    nonzero = ground arith

nothing_left : (blocks : List Block) → receive_blocks 0 blocks ≡ finished []
unfolding receive_blocks
nothing_left [] = refl
nothing_left (b ∷ blocks) = refl

blocks_of-cons :
    (fuel byte : ℕ) (file : List ℕ)
    → blocks_of (suc fuel) (byte ∷ file)
      ≡ take buff_size (byte ∷ file) ∷ blocks_of fuel (drop buff_size (byte ∷ file))
unfolding blocks_of
blocks_of-cons fuel byte file = refl

take-carried :
    (s : ℕ) (f : List ℕ)
    → s ≤ buff_size
    → s ≤ length f
    → take s (carried (take buff_size f)) ≡ take s f
take-carried s f h k = take-take_append s buff_size f _ h k

-- The part of a file that one block brings, with the part that is left for the others.
two_parts :
    (size : ℕ) (f : List ℕ)
    → size ≤ length f
    → take (if ltb buff_size size then buff_size else size) (carried (take buff_size f))
        ++ take (size - buff_size) (drop buff_size f)
      ≡ take size f
two_parts size f k = elim (Bool-cases (ltb buff_size size)) [
  | inl more ↦ rw more (
      ap (λ l. l ++ take (size - buff_size) (drop buff_size f))
        (take-carried buff_size f (omega arith) (above more))
      ∙ take-split buff_size (size - buff_size) f
      ∙ ap (λ k. take k f) (all more))
  | inr last ↦ rw last (
      ap₂ (λ l k. l ++ take k (drop buff_size f)) (take-carried size f (below last) k)
        (none (below last))
      ∙ append-nil (take size f))
]
  where
    above : ltb buff_size size ≡ true → buff_size ≤ length f
    above more = ground arith

    below : ltb buff_size size ≡ false → size ≤ buff_size
    below last = ground arith

    all : ltb buff_size size ≡ true → buff_size + (size - buff_size) ≡ size
    all more = ground arith

    none : size ≤ buff_size → size - buff_size ≡ 0
    none h = omega arith

receive-blocks_of :
    (fuel : ℕ) (file : List ℕ) (size : ℕ)
    → length file ≤ fuel
    → size ≤ length file
    → receive_blocks size (map carried (blocks_of fuel file)) ≡ finished (take size file)
receive-blocks_of fuel file zero h k = nothing_left (map carried (blocks_of fuel file))
receive-blocks_of fuel [] (suc size) h k = absurd (omega arith)
receive-blocks_of zero (byte ∷ file) (suc size) h k = absurd (omega arith)
receive-blocks_of (suc fuel) (byte ∷ file) (suc size) h k =
    ap (λ l. receive_blocks (suc size) (map carried l)) (blocks_of-cons fuel byte file)
    ∙ receive-step (suc size) (byte ∷ file) _ (omega arith)
    ∙ ap
        (write_before (
          take (if ltb buff_size (suc size) then buff_size else suc size)
            (carried (take buff_size (byte ∷ file)))))
        (receive-blocks_of fuel (drop buff_size (byte ∷ file)) (suc size - buff_size)
          (omega (arith, length-drop buff_size (byte ∷ file)))
          (omega (arith, length-drop buff_size (byte ∷ file))))
    ∙ ap finished (two_parts (suc size) (byte ∷ file) k)

take-all : (f : List ℕ) → take (length f) f ≡ f
take-all [] = refl
take-all (x ∷ f) = ap (λ l. x ∷ l) (take-all f)

below_zero_byte_le : (n : ℕ) → below_zero_byte n ≤ n
unfolding below_zero_byte
below_zero_byte_le n = ground arith

size_read :
    (size : ℕ) (name : List ℕ)
    → size < 2 ^ 32
    → from_bytes (take file_bytes_size (header size name)) ≡ below_zero_byte size
unfolding header through_strncpy
size_read size name h =
    ap from_bytes
      (take-append_length 4 (strncpy (int_bytes size) 4) _ (length-strncpy (int_bytes size) 4))
    ∙ through_strncpy_lem size h

pub length-header : (size : ℕ) (name : List ℕ) → length (header size name) ≡ buff_size
unfolding header
length-header size name = omega (
  arith,
  length-append (strncpy (int_bytes size) 4) (strncpy name (buff_size - 4)),
  length-strncpy (int_bytes size) 4,
  length-strncpy name (buff_size - 4),
)

carried-header : (size : ℕ) (name : List ℕ) → carried (header size name) ≡ header size name
carried-header size name =
    overlay_whole (header size name) blank (omega (arith, length-header size name, length-blank))

-- Of a file shorter than 2 ^ 31 bytes ftps writes, and then stops, the first part: as many bytes as
-- the part of the length below its lowest zero byte says.
pub receive_file-carried_file :
    (file name : List ℕ)
    → length file < 2 ^ 31
    → receive_file (carried_file file name) ≡ finished (take (below_zero_byte (length file)) file)
unfolding receive_file send_file carried_file
receive_file-carried_file file name h =
    ap (λ l. receive_file (l ∷ map carried (blocks_of (length file) file)))
      (carried-header (length file) name)
    ∙ ap (λ size. receive_blocks size (map carried (blocks_of (length file) file)))
        (size_read (length file) name (omega arith))
    ∙ receive-blocks_of (length file) file (below_zero_byte (length file)) (omega arith)
        (below_zero_byte_le (length file))

-- A file of fewer than 256 bytes arrives whole.
pub short_file_arrives :
    (file name : List ℕ) → length file < 256 → receive_file (carried_file file name) ≡ finished file
unfolding below_zero_byte
short_file_arrives file name h =
    receive_file-carried_file file name (omega arith)
    ∙ ap (λ n. finished (take n file)) (whole (length file) h)
    ∙ ap finished (take-all file)
  where
    whole : (n : ℕ) → n < 256 → below_zero_byte n ≡ n
    whole n h = ground arith

-- Of a file shorter than 2 ^ 31 bytes whose length is a multiple of 256 nothing arrives: ftps stops
-- with an empty file.
pub file_lost :
    (file name : List ℕ)
    → length file < 2 ^ 31
    → length file % 256 ≡ 0
    → receive_file (carried_file file name) ≡ finished []
unfolding below_zero_byte
file_lost file name h e =
    receive_file-carried_file file name h ∙ ap (λ n. finished (take n file)) (none (length file) e)
  where
    none : (n : ℕ) → n % 256 ≡ 0 → below_zero_byte n ≡ 0
    none n e = ground arith
