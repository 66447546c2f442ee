-- ===== src/Packet/Garbling.antt =====
-- What the server does with a packet that was garbled on the way.
use osu_cse.Base.{ℕ, zero, suc, ◌≤◌, ◌<◌, ◌≡◌, ◌≢◌, refl, ap₂, sym, ap, ◌∙◌, arith}
use osu_cse.Base.{List, [], ◌∷◌, ◌++◌, length, take, drop, length-drop}
use mathlib.Core.List.{append_assoc}
use osu_cse.Crc.{crc_init, crc_fast}
use osu_cse.Crc.Reference.{IsBytes}
use osu_cse.Crc.Detection.{burst_detected}
use osu_cse.Receiver.{Window, done}
use osu_cse.Packet.{Packet, seal, two_bytes, check_of, blank_check, accept_if, serve}
use osu_cse.Packet.Sealing.{IsPacket, seal-passes, unseal_wrong}

-- A part of a list within its first part.
take_within : (n : ℕ) (xs ys : List ℕ) → n ≤ length xs → take n (xs ++ ys) ≡ take n xs
take_within zero xs ys h = refl
take_within (suc n) [] ys h = absurd (omega arith)
take_within (suc n) (x ∷ xs) ys h = ap (λ l. x ∷ l) (take_within n xs ys (omega arith))

drop_within : (n : ℕ) (xs ys : List ℕ) → n ≤ length xs → drop n (xs ++ ys) ≡ drop n xs ++ ys
drop_within zero xs ys h = refl
drop_within (suc n) [] ys h = absurd (omega arith)
drop_within (suc n) (x ∷ xs) ys h = drop_within n xs ys (omega arith)

module _ (xs ys : List ℕ) (h : 18 ≤ length xs) where
  after_16 : drop 16 (xs ++ ys) ≡ drop 16 xs ++ ys
  after_16 = drop_within 16 xs ys (omega (arith, h))

  two_left : 2 ≤ length (drop 16 xs)
  two_left = omega (arith, h, length-drop {A = ℕ} 16 xs)

  check_of_front : check_of (xs ++ ys) ≡ check_of xs
  check_of_front =
      ap (λ l. two_bytes (take 2 l)) after_16
      ∙ ap two_bytes (take_within 2 (drop 16 xs) ys two_left)

  blank_check_front : blank_check (xs ++ ys) ≡ blank_check xs ++ ys
  blank_check_front =
      ap₂ (λ before behind. before ++ (0 ∷ 0 ∷ behind)) (take_within 16 xs ys (omega (arith, h)))
        (ap (drop 2) after_16 ∙ drop_within 2 (drop 16 xs) ys two_left)
      ∙ sym (append_assoc (take 16 xs) (0 ∷ 0 ∷ drop 2 (drop 16 xs)) ys)

-- If two neighbouring bytes of a sealed packet, behind its checksum, are replaced by two others that
-- are not the same two, the server drops it: the window stays as it is and nothing is sent on.
pub serve-garbled :
    (w : Window) (p : Packet) (xs ys : List ℕ) (b c b' c' : ℕ)
    → IsPacket p
    → seal crc_init p ≡ xs ++ (b ∷ c ∷ ys)
    → 18 ≤ length xs
    → IsBytes (b ∷ c ∷ ys)
    → b' < 256
    → c' < 256
    → ¬ ((b ≡ b') × (c ≡ c'))
    → serve crc_init w (xs ++ (b' ∷ c' ∷ ys)) ≡ done w []
unfolding serve
serve-garbled w p xs ys b c b' c' v e h (hb, (hc, hys)) hb' hc' differs =
    ap (accept_if w) (unseal_wrong crc_init (xs ++ (b' ∷ c' ∷ ys)) fails)
  where
    passed : crc_fast crc_init (blank_check xs ++ (b ∷ c ∷ ys)) ≡ check_of xs
    passed =
        ap (crc_fast crc_init) (sym (blank_check_front xs (b ∷ c ∷ ys) h) ∙ ap blank_check (sym e))
        ∙ seal-passes p v
        ∙ ap check_of e
        ∙ check_of_front xs (b ∷ c ∷ ys) h

    fails : crc_fast crc_init (blank_check (xs ++ (b' ∷ c' ∷ ys))) ≢ check_of (xs ++ (b' ∷ c' ∷ ys))
    fails same = burst_detected (blank_check xs) ys b c b' c' hb hc hb' hc' hys differs (
        passed
        ∙ sym (check_of_front xs (b' ∷ c' ∷ ys) h)
        ∙ sym same
        ∙ ap (crc_fast crc_init) (blank_check_front xs (b' ∷ c' ∷ ys) h))
