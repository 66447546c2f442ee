-- ===== src/Ftp/Paths/Laws.antt =====
-- Where a file is stored.
use osu_cse.Base.{
  ℕ, zero, suc, ◌+◌, ◌-◌, ◌≤◌, ◌<◌, ◌≡◌, ◌≢◌, refl, ap, ◌∙◌, arith, true, false, inl, inr,
  Bool-cases,
}
use osu_cse.Base.{◌==◌, ltb, if◌then◌else◌, none, some, ◌>>=◌}
use osu_cse.Base.{List, [], ◌∷◌, ◌++◌, length, take, drop, replicate, drop-append_length}
use mathlib.Core.List.{append-nil}
use osu_cse.Bytes.{strncpy, int_bytes}
use osu_cse.Bytes.Laws.{length-strncpy}
use osu_cse.Ftp.{header}
use osu_cse.Ftp.Paths.{text_in, file_name, name_length, announce, receive_dir, dir_end, stored_path}

-- No byte is zero.
abbrev pub IsText : List ℕ → Type 0
IsText [] = Unit
IsText (c ∷ text) = (c ≢ 0) × IsText text

not_zero : (c : ℕ) → c ≢ 0 → (c == 0) ≡ false
not_zero c h = ground arith

text_in-zero : (text rest : List ℕ) → IsText text → text_in (text ++ (0 ∷ rest)) ≡ some text
unfolding text_in
text_in-zero [] rest h = refl
text_in-zero (c ∷ text) rest h =
    rw (not_zero c h.0) (ap (λ o. o >>= λ text. some (c ∷ text)) (text_in-zero text rest h.1))

pub text_in-none : (text : List ℕ) → IsText text → text_in text ≡ none
unfolding text_in
text_in-none [] h = refl
text_in-none (c ∷ text) h =
    rw (not_zero c h.0) (ap (λ o. o >>= λ text. some (c ∷ text)) (text_in-none text h.1))

-- Text with zeros behind it, if there is room for one.
pub text_in-zeros :
    (text : List ℕ) (n : ℕ) → IsText text → 0 < n → text_in (text ++ replicate n 0) ≡ some text
text_in-zeros text zero h lt = absurd (omega arith)
text_in-zeros text (suc n) h lt = text_in-zero text (replicate n 0) h

strncpy-zeros : (n : ℕ) → strncpy [] n ≡ replicate n 0
unfolding strncpy
strncpy-zeros zero = refl
strncpy-zeros (suc n) = ap (λ l. 0 ∷ l) (strncpy-zeros n)

strncpy-text :
    (text : List ℕ) (n : ℕ)
    → IsText text
    → strncpy text n ≡ take n text ++ replicate (n - length text) 0
unfolding strncpy
strncpy-text text zero h = ap (λ k. replicate k 0) {x = 0} {y = 0 - length text} (omega arith)
strncpy-text [] (suc n) h =
    strncpy-zeros (suc n) ∙ ap (λ k. replicate k 0) {x = suc n} {y = suc n - 0} (omega arith)
strncpy-text (c ∷ text) (suc n) h = rw (not_zero c h.0) (
    ap (λ l. c ∷ l)
      (strncpy-text text n h.1
        ∙ ap (λ k. take n text ++ replicate k 0) {x = n - length text}
            {y = suc n - suc (length text)} (omega arith)))

pub take-IsText : (n : ℕ) (text : List ℕ) → IsText text → IsText (take n text)
take-IsText zero text h = tt
take-IsText (suc n) [] h = tt
take-IsText (suc n) (c ∷ text) h = (h.0, take-IsText n text h.1)

pub take-long : (n : ℕ) (xs : List ℕ) → n ≤ length xs → length (take n xs) ≡ n
take-long zero xs h = refl
take-long (suc n) [] h = absurd (omega arith)
take-long (suc n) (x ∷ xs) h = ap suc (take-long n xs (omega arith))

take-all : (xs : List ℕ) → take (length xs) xs ≡ xs
take-all [] = refl
take-all (x ∷ xs) = ap (λ l. x ∷ l) (take-all xs)

pub take-whole : (n : ℕ) (xs : List ℕ) → length xs ≤ n → take n xs ≡ xs
take-whole zero [] h = refl
take-whole zero (x ∷ xs) h = absurd (omega arith)
take-whole (suc n) [] h = refl
take-whole (suc n) (x ∷ xs) h = ap (λ l. x ∷ l) (take-whole n xs (omega arith))

-- The array `filename` with a text in it.
module _ (text : List ℕ) (h : IsText text) where
  name_in : length text < 20 → text_in (file_name (take (name_length text) text)) ≡ some text
  name_in short = elim (Bool-cases (ltb 20 (length text))) [
    | inl long ↦ absurd (past long)
    | inr fits ↦ rw (fits, take-all text) (text_in-zeros text (20 - length text) h (omega arith))
  ]
    where
      past : ltb 20 (length text) ≡ true → ⊥
      past long = ground arith

  -- From 20 bytes on it has no room for the zero byte.
  no_name_in : 20 ≤ length text → text_in (file_name (take (name_length text) text)) ≡ none
  no_name_in long =
      ap (λ n. text_in (file_name (take n text))) cut
      ∙ ap (λ k. text_in (take 20 text ++ replicate k 0)) {x = 20 - length (take 20 text)} {y = 0}
          (omega (arith, take-long 20 text long))
      ∙ ap text_in (append-nil (take 20 text))
      ∙ text_in-none (take 20 text) (take-IsText 20 text h)
    where
      cut : name_length text ≡ 20
      cut = ground arith

  strncpy-name : strncpy text (name_length text) ≡ take (name_length text) text
  strncpy-name =
      strncpy-text text (name_length text) h
      ∙ ap (λ k. take (name_length text) text ++ replicate k 0) {x = name_length text - length text}
          {y = 0} (none_left (length text))
      ∙ append-nil (take (name_length text) text)
    where
      none_left : (n : ℕ) → (if ltb 20 n then 20 else n) - n ≡ 0
      none_left n = ground arith

  announce-short : (size : ℕ) → length text < 20 → announce size text ≡ some (header size text)
  unfolding announce
  announce-short size short =
      ap (λ l. text_in (file_name l) >>= λ name. some (header size name)) strncpy-name
      ∙ ap (λ o. o >>= λ name. some (header size name)) (name_in short)

  announce-long : (size : ℕ) → 20 ≤ length text → announce size text ≡ none
  unfolding announce
  announce-long size long =
      ap (λ l. text_in (file_name l) >>= λ name. some (header size name)) strncpy-name
      ∙ ap (λ o. o >>= λ name. some (header size name)) (no_name_in long)

  -- The name in a first message.
  sent_name : (size : ℕ) → length text < 996 → text_in (drop 4 (header size text)) ≡ some text
  unfolding header
  sent_name size fits =
      ap text_in (
        drop-append_length 4 0 (strncpy (int_bytes size) 4) (strncpy text 996)
          (length-strncpy (int_bytes size) 4))
      ∙ ap text_in (strncpy-text text 996 h)
      ∙ ap (λ l. text_in (l ++ replicate (996 - length text) 0)) (take-whole 996 text (omega arith))
      ∙ text_in-zeros text (996 - length text) h (omega arith)

  stored_path-short :
      (size : ℕ)
      → length text < 20
      → stored_path (header size text) ≡ some ((receive_dir ++ dir_end) ++ text)
  unfolding stored_path
  stored_path-short size short = rw (sent_name size (omega arith), name_in short) (rw room refl)
    where
      room : ltb (10 + length text) 30 ≡ true
      room = ground arith

  stored_path-long :
      (size : ℕ) → 20 ≤ length text → length text < 996 → stored_path (header size text) ≡ none
  unfolding stored_path
  stored_path-long size long fits = rw (sent_name size fits, no_name_in long) refl

  -- For a name of fewer than 20 bytes, none of them zero, ftpc opens the file of that name, and ftps
  -- stores what it receives under `./receive/` and the name, whatever other bytes it has.
  pub file_name-kept :
      (size : ℕ)
      → length text < 20
      → (announce size text ≡ some (header size text))
        × (stored_path (header size text) ≡ some ((receive_dir ++ dir_end) ++ text))
  file_name-kept size short = (announce-short size short, stored_path-short size short)

  -- With a name of 20 or more bytes, none of them zero, ftpc reads on behind its variable; and so does
  -- ftps if such a name of fewer than 996 bytes is sent to it.
  pub long_name_overruns :
      (size : ℕ)
      → 20 ≤ length text
      → length text < 996
      → (announce size text ≡ none) × (stored_path (header size text) ≡ none)
  long_name_overruns size long fits = (announce-long size long, stored_path-long size long fits)
