-- ===== src/Driver/Acks.antt =====
-- Where the driver's scan for unacknowledged frames ends.
use osu_cse.Base.{ℕ, zero, suc, ◌+◌, ◌-◌, ◌≤◌, ◌<◌, ◌≡◌, ◌≢◌, refl, ap, ◌∙◌, true, false, arith}
use osu_cse.Base.{◌&&◌, ltb, leb, if◌then◌else◌, some, inl, inr, Bool-cases, ltb→lt, lt→ltb, ◌==◌}
use osu_cse.Base.Int.{ℤ, pos, negsuc, pos_part, ◌+ℤ◌, ◌-ℤ◌, leb_ℤ}
use osu_cse.Buffer.{slots, slot, check_empty, clear}
use osu_cse.Timeval.{Timeval, calculate_rtt}
use osu_cse.Driver.{Driver, acked, goes_on, scan, scanned, scan_acked, new_lar, handle_ack}

not_zero : (l : ℤ) → l ≢ pos 0 → (leb_ℤ l (pos 0) && leb_ℤ (pos 0) l) ≡ false
not_zero (pos zero) h = absurd (h refl)
not_zero (pos (suc n)) h = ground arith
not_zero (negsuc n) h = ground arith

goes_on_away : (w : Driver) (i : ℕ) → w.lfs ≢ pos 0 → goes_on w i ≡ true
unfolding goes_on
goes_on_away w i h = elim (Bool-cases (leb i (if leb_ℤ w.lar w.lfs then 1 else 0))) [
  | inl b ↦ rw (b, not_zero w.lfs h)
  | inr b ↦ rw b
]

-- The scan stops at the first frame that is not acknowledged.
scan_stops :
    (w : Driver) (t left i : ℕ)
    → w.lfs ≢ pos 0
    → i ≤ t
    → t < i + left
    → ((j : ℕ) → i ≤ j → j < t → check_empty (slot w.sendbuf j) ≡ true)
    → check_empty (slot w.sendbuf t) ≡ false
    → scan w left i ≡ some t
unfolding scan
scan_stops w t zero i h le lt empty full = absurd (omega arith)
scan_stops w t (suc left) i h le lt empty full = elim (Bool-cases (ltb i t)) [
  | inl more ↦
      rw (goes_on_away w i h, empty i (omega arith) (ltb→lt i t more))
        (scan_stops w t left (suc i) h (ltb→lt i t more) (omega arith)
          (λ j a b. empty j (omega arith) b) full)
  | inr here ↦
      ap (scan w (suc left)) {x = i} {y = t} (ground arith) ∙ rw (goes_on_away w t h, full) refl
]

-- The driver with the acknowledged frame taken out of its buffer.
abbrev pub taken_out : Driver → ℕ → Timeval → Timeval → Driver
taken_out w ack recv_time send_time = record w {
  sendbuf = clear w.sendbuf ack 1;
  rtt = calculate_rtt recv_time send_time;
}

-- If `lfs` is not 0 and `t` is the first frame above `lar` that is left once the acknowledged one is
-- taken out, `lar` becomes `t - 1`, and nothing else changes but the buffer and the round trip time.
pub handle_ack-acked :
    (w : Driver) (ack t : ℕ) (recv_time send_time : Timeval)
    → w.lfs ≢ pos 0
    → ack < slots
    → pos_part (w.lar +ℤ pos 1) ≤ t
    → t < slots
    → ((j : ℕ)
        → pos_part (w.lar +ℤ pos 1) ≤ j
        → j < t
        → check_empty (slot (clear w.sendbuf ack 1) j) ≡ true)
    → check_empty (slot (clear w.sendbuf ack 1) t) ≡ false
    → handle_ack w ack recv_time send_time
      ≡ acked (record (taken_out w ack recv_time send_time) { lar = pos t -ℤ pos 1 })
unfolding handle_ack scan_acked scanned new_lar
handle_ack-acked w ack t recv_time send_time h small le lt empty full =
    rw (lt→ltb ack slots small) (
      ap (scanned (taken_out w ack recv_time send_time)) (
        scan_stops (taken_out w ack recv_time send_time) t (slots - pos_part (w.lar +ℤ pos 1))
          (pos_part (w.lar +ℤ pos 1)) h le (omega arith) empty full)
      ∙ rw inside)
  where
    inside : (t == slots) ≡ false
    inside = ground arith
