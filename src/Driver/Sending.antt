-- ===== src/Driver/Sending.antt =====
-- How far the driver runs ahead of the acknowledgements.
use osu_cse.Base.{◌+◌, ◌<◌, ◌≡◌, ◌⊎◌, Bool, refl, true, false, inl, inr, arith}
use mathlib.Core.Bool.{false≢true}
use osu_cse.Base.{length}
use osu_cse.Base.{◌&&◌, ◌||◌, if◌then◌else◌}
use osu_cse.Base.Int.{ℤ, pos, negsuc, ◌+ℤ◌, ◌-ℤ◌, ◌≤ℤ◌, ◌<ℤ◌, ltb_ℤ, leb_ℤ}
use osu_cse.Buffer.{slots, window}
use osu_cse.Driver.{Driver, transmit, may_send, next_lfs, send_next}

-- The indexes are where the buffer has them.
pub record IsDriver (w : Driver) : Type 0 where
  pub lar_low : negsuc 0 ≤ℤ w.lar
  pub lar_high : w.lar ≤ℤ pos 63
  pub lfs_low : negsuc 0 ≤ℤ w.lfs
  pub lfs_high : w.lfs ≤ℤ pos 62
  pub bufpos : w.bufpos < slots
  pub sendbuf : length w.sendbuf ≡ slots

-- The frames sent and not acknowledged, going round at the end of the buffer.
pub outstanding : Driver → ℤ
outstanding w = if leb_ℤ w.lar w.lfs then w.lfs -ℤ w.lar else w.lfs +ℤ pos 64 -ℤ w.lar

either_side :
    (p q r s t u : Bool)
    → ((p && (q && r)) || (s && (t && u))) ≡ true
    → ((p ≡ true) × (q ≡ true)) ⊎ ((s ≡ true) × (t ≡ true))
either_side true true r s t u h = inl (refl, refl)
either_side true false r true true u h = inr (refl, refl)
either_side true false r true false u h = absurd (false≢true h)
either_side true false r false t u h = absurd (false≢true h)
either_side false q r true true u h = inr (refl, refl)
either_side false q r true false u h = absurd (false≢true h)
either_side false q r false t u h = absurd (false≢true h)

-- The next `lfs`, with the window in order and with the window going round.
ahead :
    (lar lfs : ℤ)
    → lar ≤ℤ lfs
    → lfs -ℤ lar <ℤ pos window
    → (if leb_ℤ lar (next_lfs lfs) then next_lfs lfs -ℤ lar else next_lfs lfs +ℤ pos 64 -ℤ lar)
      ≤ℤ pos 20
unfolding next_lfs
ahead lar lfs a b = unfold ◌-ℤ◌ ◌+ℤ◌ in ground arith

ahead_round :
    (lar lfs : ℤ)
    → lfs <ℤ lar
    → lar ≤ℤ pos 63
    → pos 63 -ℤ lar +ℤ lfs <ℤ pos window
    → (if leb_ℤ lar (next_lfs lfs) then next_lfs lfs -ℤ lar else next_lfs lfs +ℤ pos 64 -ℤ lar)
      ≤ℤ pos 21
unfolding next_lfs
ahead_round lar lfs a b c = unfold ◌-ℤ◌ ◌+ℤ◌ in ground arith

in_order : (a b : ℤ) → leb_ℤ a b ≡ true → a ≤ℤ b
in_order a b h = ground arith

before : (a b : ℤ) → ltb_ℤ a b ≡ true → a <ℤ b
before a b h = ground arith

out_of_order : (a b : ℤ) → ltb_ℤ a b ≡ true → leb_ℤ b a ≡ false
out_of_order a b h = ground arith

next_lfs-low : (lfs : ℤ) → negsuc 0 ≤ℤ lfs → negsuc 0 ≤ℤ next_lfs lfs
unfolding next_lfs
next_lfs-low lfs h = unfold ◌+ℤ◌ in ground arith

next_lfs-high : (lfs : ℤ) → lfs ≤ℤ pos 62 → next_lfs lfs ≤ℤ pos 62
unfolding next_lfs
next_lfs-high lfs h = unfold ◌+ℤ◌ in ground arith

-- When the driver sends a frame, it has at most WINDOW frames on their way afterwards if its window
-- does not go round the end of the buffer, and at most one more if it does; the indexes stay in the
-- buffer.
pub send_next-outstanding :
    (w : Driver)
    → IsDriver w
    → may_send w ≡ true
    → (outstanding (send_next w).0 ≤ℤ (if leb_ℤ w.lar w.lfs then pos window else pos (window + 1)))
      × IsDriver (send_next w).0
unfolding send_next may_send outstanding transmit
send_next-outstanding w v h = rw h (
  bound,
  record {
    lar_low = v.lar_low;
    lar_high = v.lar_high;
    lfs_low = next_lfs-low w.lfs v.lfs_low;
    lfs_high = next_lfs-high w.lfs v.lfs_high;
    bufpos = v.bufpos;
    sendbuf = v.sendbuf;
  },
)
  where
    bound :
        (if leb_ℤ w.lar (next_lfs w.lfs)
          then next_lfs w.lfs -ℤ w.lar
          else next_lfs w.lfs +ℤ pos 64 -ℤ w.lar)
        ≤ℤ (if leb_ℤ w.lar w.lfs then pos window else pos (window + 1))
    bound =
        elim (either_side (leb_ℤ w.lar w.lfs) (ltb_ℤ (w.lfs -ℤ w.lar) (pos window))
          (ltb_ℤ (w.lfs +ℤ pos 1) (pos w.bufpos) || leb_ℤ (pos w.bufpos) w.lar) (ltb_ℤ w.lfs w.lar)
          (ltb_ℤ (pos 63 -ℤ w.lar +ℤ w.lfs) (pos window)) (ltb_ℤ (w.lfs +ℤ pos 1) (pos w.bufpos))
          h) [
            | inl (p, q) ↦ rw p (
                ahead w.lar w.lfs (in_order w.lar w.lfs p) (before (w.lfs -ℤ w.lar) (pos window) q))
            | inr (s, t) ↦ rw (out_of_order w.lfs w.lar s) (
                ahead_round w.lar w.lfs (before w.lfs w.lar s) v.lar_high
                  (before (pos 63 -ℤ w.lar +ℤ w.lfs) (pos window) t))
          ]
