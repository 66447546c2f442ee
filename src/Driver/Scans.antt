-- ===== src/Driver/Scans.antt =====
-- What is known of the driver's indexes after an acknowledgement that did not lead it outside its
-- buffer.
use osu_cse.Base.{ℕ, zero, suc, ◌+◌, ◌-◌, ◌≤◌, ◌<◌, ◌≡◌, refl, ap, ◌∙◌, true, false, arith}
use osu_cse.Base.{◌&&◌, ltb, Option, none, some, inl, inr, Bool-cases, ◌==◌, ◌⊎◌}
use osu_cse.Base.Int.{int_laws, parts_apart, ℤ, pos, negsuc, pos_part, ◌+ℤ◌, ◌-ℤ◌, ◌≤ℤ◌, leb_ℤ}
use osu_cse.Buffer.{slots, slot, check_empty}
use osu_cse.Timeval.{Timeval}
use osu_cse.Driver.{
  Driver, AckOutcome, acked, overrun, goes_on, scan, scanned, scan_acked, new_lar, handle_ack,
}
use osu_cse.Driver.Acks.{taken_out}

-- The scan from `i` on stopped at `t`, at a frame that is there or because of the loop's condition,
-- after empty blocks.
abbrev pub IsStop : Driver → ℕ → Option ℕ → Type 0
IsStop w i none = Unit
IsStop w i (some t) =
    (i ≤ t)
    × (t < slots)
    × ((j : ℕ) → i ≤ j → j < t → check_empty (slot w.sendbuf j) ≡ true)
    × ((check_empty (slot w.sendbuf t) ≡ false) ⊎ (goes_on w t ≡ false))

goes_on_end : (w : Driver) → goes_on w slots ≡ true
unfolding goes_on
goes_on_end w = ground arith

pub scan-IsStop : (w : Driver) (left i : ℕ) → i + left ≡ slots → IsStop w i (scan w left i)
unfolding scan
scan-IsStop w zero i h = rw (ap (goes_on w) {x = i} {y = slots} (omega arith) ∙ goes_on_end w) tt
scan-IsStop w (suc left) i h = elim (Bool-cases (goes_on w i)) [
  | inr off ↦ rw off (omega arith, omega arith, λ j a b. absurd (omega arith), inr off)
  | inl on ↦ elim (Bool-cases (check_empty (slot w.sendbuf i))) [
    | inr there ↦
        rw (on, there) (omega arith, omega arith, λ j a b. absurd (omega arith), inl there)
    | inl gone ↦
        rw (on, gone)
          (further (scan w left (suc i)) gone (scan-IsStop w left (suc i) (omega arith)))
  ]
]
  where
    further :
        (o : Option ℕ) → check_empty (slot w.sendbuf i) ≡ true → IsStop w (suc i) o → IsStop w i o
    further none gone s = tt
    further (some t) gone (le, lt, empty, why) = (
      omega arith,
      lt,
      λ j a b. elim (Bool-cases (j == i)) [
        | inl same ↦ ap (λ k. check_empty (slot w.sendbuf k)) (equal j same) ∙ gone
        | inr other ↦ empty j (later j a other) b
      ],
      why,
    )
      where
        equal : (j : ℕ) → (j == i) ≡ true → j ≡ i
        equal j h = ground arith

        later : (j : ℕ) → i ≤ j → (j == i) ≡ false → suc i ≤ j
        later j a h = ground arith

-- The condition ends the loop only at frames 0 and 1, and with `lfs` at 0.
pub goes_on_off : (w : Driver) (t : ℕ) → goes_on w t ≡ false → (t ≤ 1) × (w.lfs ≡ pos 0)
unfolding goes_on
goes_on_off w t h = (low, zero_is w.lfs high)
  where
    zero_is : (l : ℤ) → (leb_ℤ l (pos 0) && leb_ℤ (pos 0) l) ≡ true → l ≡ pos 0
    zero_is (pos zero) e = refl
    zero_is (pos (suc n)) e = absurd (ground arith)
    zero_is (negsuc n) e = absurd (ground arith)

    low : t ≤ 1
    low = ground arith

    high : (leb_ℤ w.lfs (pos 0) && leb_ℤ (pos 0) w.lfs) ≡ true
    high = ground arith

-- The driver after the scan of the buffer without the acknowledged frame.
abbrev pub scanned_to : Driver → ℕ → Timeval → Timeval → ℕ → Driver
scanned_to w ack recv_time send_time t = record (taken_out w ack recv_time send_time) {
  lar = pos t -ℤ pos 1;
}

-- An acknowledgement with no access outside the buffer: `lar` is just before the frame at which the
-- scan stopped.
abbrev pub IsAcked : Driver → ℕ → Timeval → Timeval → AckOutcome → Type 0
IsAcked w ack recv_time send_time overrun = Unit
IsAcked w ack recv_time send_time (acked w') =
    (t : ℕ) × (w' ≡ scanned_to w ack recv_time send_time t)
    × (ack < slots)
    × IsStop (taken_out w ack recv_time send_time) (pos_part (w.lar +ℤ pos 1)) (some t)

new_lar_inside : (w : Driver) (t : ℕ) → t < slots → new_lar w t ≡ pos t -ℤ pos 1
unfolding new_lar
new_lar_inside w t h = rw (inside t h)
  where
    inside : (t : ℕ) → t < slots → (t == slots) ≡ false
    inside t h = ground arith

scanned-IsAcked :
    (w : Driver) (ack : ℕ) (recv_time send_time : Timeval) (o : Option ℕ)
    → ack < slots
    → IsStop (taken_out w ack recv_time send_time) (pos_part (w.lar +ℤ pos 1)) o
    → IsAcked w ack recv_time send_time (scanned (taken_out w ack recv_time send_time) o)
unfolding scanned
scanned-IsAcked w ack recv_time send_time none small s = tt
scanned-IsAcked w ack recv_time send_time (some t) small s = (
  t,
  ap (λ l. record (taken_out w ack recv_time send_time) { lar = l })
      (new_lar_inside (taken_out w ack recv_time send_time) t s.1),
  small,
  s,
)

pub handle_ack-IsAcked :
    (w : Driver) (ack : ℕ) (recv_time send_time : Timeval)
    → w.lar ≤ℤ pos 63
    → IsAcked w ack recv_time send_time (handle_ack w ack recv_time send_time)
unfolding handle_ack scan_acked
handle_ack-IsAcked w ack recv_time send_time high = elim (Bool-cases (ltb ack slots)) [
  | inl small ↦ rw small (
      scanned-IsAcked w ack recv_time send_time _ (below small) (
        scan-IsStop (taken_out w ack recv_time send_time) (slots - pos_part (w.lar +ℤ pos 1))
          (pos_part (w.lar +ℤ pos 1)) (all w.lar high)))
  | inr large ↦ rw large tt
]
  where
    below : ltb ack slots ≡ true → ack < slots
    below h = ground arith

    all : (l : ℤ) → l ≤ℤ pos 63 → pos_part (l +ℤ pos 1) + (slots - pos_part (l +ℤ pos 1)) ≡ slots
    all l h = omega (int_laws, parts_apart (l +ℤ pos 1))
