-- ===== src/Stream/Names.antt =====
-- The name under which the server of lab2 stores a file.
use osu_cse.Base.{ℕ, zero, suc, ◌+◌, ◌≤◌, ◌<◌, ◌≡◌, ◌≢◌, refl, sym, ap, ◌∙◌, arith}
use osu_cse.Base.{false, ◌==◌, List, [], ◌∷◌, ◌++◌, length, length-append, take, drop, drop-append}
use osu_cse.Base.{get_or, drop-append_length}
use mathlib.Core.List.{append_assoc}
use osu_cse.Bytes.{int_bytes, strncpy, c_string}
use osu_cse.Bytes.Laws.{length-strncpy}
use osu_cse.Base.{ltb, true, Option, some, none, ◌>>=◌}
use osu_cse.Ftp.Paths.{text_in, receive_dir, dir_end}
use osu_cse.Stream.{slash, after_slash, base_name, header, received_name, stored_path}

-- A name in a path: no byte of it is a slash or zero.
abbrev pub IsName : List ℕ → Type 0
IsName [] = Unit
IsName (c ∷ name) = (c ≢ slash) × ((c ≢ 0) × IsName name)

get_or-append :
    (xs ys : List ℕ) (d : ℕ) → (i : ℕ) → get_or (xs ++ ys) (length xs + i) d ≡ get_or ys i d
get_or-append [] ys d i = ap (λ k. get_or ys k d) (omega arith)
get_or-append (x ∷ xs) ys d i =
    ap (λ k. get_or (x ∷ (xs ++ ys)) k d) {x = suc (length xs) + i} {y = suc (length xs + i)}
      (omega arith)
    ∙ get_or-append xs ys d i

no_slash : (name : List ℕ) (i : ℕ) → IsName name → (get_or name i 0 == slash) ≡ false
no_slash [] i h = refl
no_slash (c ∷ name) zero h = other c h.0
  where
    other : (c : ℕ) → c ≢ slash → (c == slash) ≡ false
    other c h = ground arith
no_slash (c ∷ name) (suc i) h = no_slash name i h.1.1

-- The search goes over a name down to what is in front of it.
after_slash-name :
    (front name : List ℕ) (n : ℕ)
    → IsName name
    → after_slash (front ++ name) (length front + n) ≡ after_slash (front ++ name) (length front)
unfolding after_slash
after_slash-name front name zero h = ap (after_slash (front ++ name)) (omega arith)
after_slash-name front name (suc n) h =
    ap (after_slash (front ++ name)) {x = length front + suc n} {y = suc (length front + n)}
      (omega arith)
    ∙ skip
    ∙ after_slash-name front name n h
  where
    skip :
        after_slash (front ++ name) (suc (length front + n))
        ≡ after_slash (front ++ name) (length front + n)
    skip = rw (ap (λ c. c == slash) (get_or-append front name 0 n) ∙ no_slash name n h)

after_slash-found :
    (dir rest : List ℕ)
    → after_slash ((dir ++ (slash ∷ [])) ++ rest) (suc (length dir)) ≡ suc (length dir)
unfolding after_slash
after_slash-found dir rest = rw (ap (λ c. c == slash) at_slash ∙ refl)
  where
    at_slash : get_or ((dir ++ (slash ∷ [])) ++ rest) (length dir) 0 ≡ slash
    at_slash =
        ap (λ l. get_or l (length dir) 0) (append_assoc dir (slash ∷ []) rest)
        ∙ ap (λ k. get_or (dir ++ (slash ∷ rest)) k 0) {x = length dir} {y = length dir + 0}
            (omega arith)
        ∙ get_or-append dir (slash ∷ rest) 0 0

-- Of a path with a slash in it the server is sent what stands behind the last slash.
base_name-path :
    (dir name : List ℕ) → IsName name → base_name ((dir ++ (slash ∷ [])) ++ name) ≡ name
unfolding base_name
base_name-path dir name h =
    ap (λ t. drop t path)
      (ap (after_slash path) (length-append front name)
        ∙ after_slash-name front name (length name) h
        ∙ ap (after_slash path) size
        ∙ after_slash-found dir name
        ∙ sym size)
    ∙ drop-append front name
  where
    front : List ℕ
    front = dir ++ (slash ∷ [])

    path : List ℕ
    path = front ++ name

    size : length front ≡ suc (length dir)
    size = omega (arith, length-append dir (slash ∷ []))

-- And of a path without one all of it.
base_name-plain : (name : List ℕ) → IsName name → base_name name ≡ name
unfolding base_name after_slash
base_name-plain name h =
    ap (λ t. drop t name)
      (ap (after_slash name) {x = length name} {y = 0 + length name} (omega arith)
        ∙ after_slash-name [] name (length name) h)

c_string-strncpy :
    (name : List ℕ) (n : ℕ) → IsName name → length name < n → c_string (strncpy name n) ≡ name
unfolding c_string strncpy
c_string-strncpy name zero h lt = absurd (omega arith)
c_string-strncpy [] (suc n) h lt = refl
c_string-strncpy (c ∷ name) (suc n) h lt =
    rw (other c h.1.0, c_string)
      (rw (other c h.1.0) (ap (λ l. c ∷ l) (c_string-strncpy name n h.1.1 (omega arith))))
  where
    other : (c : ℕ) → c ≢ 0 → (c == 0) ≡ false
    other c h = ground arith

text_in-append :
    (name rest : List ℕ)
    → IsName name
    → text_in (name ++ rest) ≡ (text_in rest >>= λ more. some (name ++ more))
unfolding text_in
text_in-append [] rest h = plain (text_in rest)
  where
    plain : (o : Option (List ℕ)) → o ≡ (o >>= λ more. some more)
    plain none = refl
    plain (some more) = refl
text_in-append (c ∷ name) rest h =
    rw (other c h.1.0) (
      ap (λ o. o >>= λ text. some (c ∷ text)) (text_in-append name rest h.1.1)
      ∙ both (text_in rest))
  where
    other : (c : ℕ) → c ≢ 0 → (c == 0) ≡ false
    other c h = ground arith

    both :
        (o : Option (List ℕ))
        → ((o >>= λ more. some (name ++ more)) >>= λ text. some (c ∷ text))
          ≡ (o >>= λ more. some (c ∷ (name ++ more)))
    both none = refl
    both (some more) = refl

take_whole : (n : ℕ) (xs : List ℕ) → length xs ≤ n → take n xs ≡ xs
take_whole zero [] h = refl
take_whole zero (x ∷ xs) h = absurd (omega arith)
take_whole (suc n) [] h = refl
take_whole (suc n) (x ∷ xs) h = ap (λ l. x ∷ l) (take_whole n xs (omega arith))

-- For the path of a file in some directory, the name that the server has is the file's name, with the
-- bytes behind it that its variable held before, up to the first zero byte among them.
received_name-header :
    (size : ℕ) (dir name filename : List ℕ)
    → IsName name
    → length name ≤ 20
    → received_name filename (header size ((dir ++ (slash ∷ [])) ++ name))
      ≡ (text_in (drop (length name) filename) >>= λ more. some (name ++ more))
unfolding received_name header
received_name-header size dir name filename h small =
    ap (λ l. text_in (take 20 (c_string l) ++ drop (length (take 20 (c_string l))) filename))
      (drop-append_length 4 0 (strncpy (int_bytes size) 4) _ (length-strncpy (int_bytes size) 4)
        ∙ ap (λ l. strncpy l 4092) (base_name-path dir name h))
    ∙ ap (λ l. text_in (take 20 l ++ drop (length (take 20 l)) filename))
        (c_string-strncpy name 4092 h (omega arith))
    ∙ ap (λ l. text_in (l ++ drop (length l) filename)) (take_whole 20 name small)
    ∙ text_in-append name (drop (length name) filename) h

-- For the path of a file in some directory, whose name has up to 20 bytes, the server stores the file
-- under `./receive/` and the name, with the text `more` behind it that its variable held there before,
-- if both have fewer than 20 bytes together.
pub stored_path-header :
    (size : ℕ) (dir name filename more : List ℕ)
    → IsName name
    → text_in (drop (length name) filename) ≡ some more
    → length name + length more < 20
    → stored_path filename (header size ((dir ++ (slash ∷ [])) ++ name))
      ≡ some ((receive_dir ++ dir_end) ++ (name ++ more))
unfolding stored_path
stored_path-header size dir name filename more h behind small =
    rw
      (
        received_name-header size dir name filename h (omega (arith, small)),
        behind,
        length-append name more,
      )
      (rw (room (length name + length more) small) refl)
  where
    room : (n : ℕ) → n < 20 → ltb (10 + n) 30 ≡ true
    room n h = ground arith

-- If its variable holds no zero behind the name, the server reads beyond it.
pub stored_path-overrun :
    (size : ℕ) (dir name filename : List ℕ)
    → IsName name
    → length name ≤ 20
    → text_in (drop (length name) filename) ≡ none
    → stored_path filename (header size ((dir ++ (slash ∷ [])) ++ name)) ≡ none
unfolding stored_path
stored_path-overrun size dir name filename h small behind =
    rw (received_name-header size dir name filename h small, behind) refl
