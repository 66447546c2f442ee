-- ===== src/Ftp/Starts.antt =====
-- What ftps writes of the first messages only, and how long the messages are.
use osu_cse.Base.{ℕ, zero, suc, ◌-◌, ◌≡◌, refl, ap, ◌∙◌, arith, inl, inr}
use osu_cse.Base.{false, Bool-cases, ◌==◌}
use osu_cse.Base.{List, [], ◌∷◌, ◌++◌, map, length, length-replicate, take, replicate, get_or}
use mathlib.Core.List.{append_assoc}
use osu_cse.Bytes.{from_bytes}
use osu_cse.Buffer.{Block, buff_size}
use osu_cse.Ftp.{file_bytes_size, header, blocks_of, carried, send_file, carried_file}
use osu_cse.Ftp.{Received, finished, waiting, write_before, receive_blocks, receive_file}
use osu_cse.Ftp.Transfer.{length-carried, length-carried_le, length-header}

-- `o` is a start of `all`: what has been written so far is the first part of it, and all of it once
-- ftps stopped.
abbrev pub IsStart : Received → Received → Type 0
IsStart (finished written) all = all ≡ finished written
IsStart (waiting written) (finished whole) = (rest : List ℕ) × (written ++ rest ≡ whole)
IsStart (waiting written) (waiting more) = (rest : List ℕ) × (written ++ rest ≡ more)

write_before-IsStart :
    (written : List ℕ) (o all : Received)
    → IsStart o all
    → IsStart (write_before written o) (write_before written all)
write_before-IsStart written (finished w) all h = ap (write_before written) h
write_before-IsStart written (waiting w) (finished whole) (rest, e) =
    (rest, append_assoc written w rest ∙ ap (λ l. written ++ l) e)
write_before-IsStart written (waiting w) (waiting more) (rest, e) =
    (rest, append_assoc written w rest ∙ ap (λ l. written ++ l) e)

nothing-IsStart : (o : Received) → IsStart (waiting []) o
nothing-IsStart (finished w) = (w, refl)
nothing-IsStart (waiting w) = (w, refl)

receive_blocks-IsStart :
    (size : ℕ) (xs ys : List Block)
    → IsStart (receive_blocks size xs) (receive_blocks size (xs ++ ys))
unfolding receive_blocks
receive_blocks-IsStart zero [] [] = refl
receive_blocks-IsStart zero [] (y ∷ ys) = refl
receive_blocks-IsStart (suc size) [] ys =
    rw (nonzero size) (nothing-IsStart (receive_blocks (suc size) ys))
  where
    nonzero : (n : ℕ) → (suc n == 0) ≡ false
    nonzero n = ground arith
receive_blocks-IsStart size (x ∷ xs) ys = elim (Bool-cases (size == 0)) [
  | inl all ↦ rw all refl
  | inr more ↦ rw more (write_before-IsStart _ _ _ (receive_blocks-IsStart (size - length x) xs ys))
]

-- More messages only add to what ftps writes.
pub receive_file-IsStart :
    (xs ys : List Block) → IsStart (receive_file xs) (receive_file (xs ++ ys))
unfolding receive_file
receive_file-IsStart [] ys = nothing-IsStart (receive_file ys)
receive_file-IsStart (x ∷ xs) ys =
    receive_blocks-IsStart (from_bytes (take file_bytes_size x)) xs ys

length-blocks :
    (fuel : ℕ) (file : List ℕ) (j : ℕ)
    → length (get_or (map carried (blocks_of fuel file)) j (replicate buff_size 1)) ≡ buff_size
unfolding blocks_of
length-blocks zero file j = length-replicate {A = ℕ} buff_size 1
length-blocks (suc fuel) [] j = length-replicate {A = ℕ} buff_size 1
length-blocks (suc fuel) (byte ∷ file) zero = length-carried (byte ∷ file)
length-blocks (suc fuel) (byte ∷ file) (suc j) = length-blocks fuel _ j

pub length-carried_file :
    (file name : List ℕ) (j : ℕ)
    → length (get_or (carried_file file name) j (replicate buff_size 1)) ≡ buff_size
unfolding send_file carried_file
length-carried_file file name zero =
    length-carried_le (header (length file) name) (omega (arith, length-header (length file) name))
length-carried_file file name (suc j) = length-blocks (length file) file j
