-- ===== src/Driver/Flight.antt =====
-- The frames between `lar` and `lfs`, and the guard on a new block.
use osu_cse.Base.{ℕ, ◌≡◌, sym, ap, ◌∙◌, arith}
use osu_cse.Base.{Bool, true, false, ◌&&◌, ◌||◌, inl, inr, Bool-cases, get_or-set_ne}
use osu_cse.Base.{[]}
use mathlib.Core.Bool.{false≢true}
use osu_cse.Base.Int.{ℤ, pos, ltb_ℤ, leb_ℤ}
use osu_cse.Buffer.{Block, slot}
use osu_cse.Driver.{Driver, has_room, take_block}

-- Frame `k` is behind `lar` and not behind `lfs`, in the order round the buffer.
unfoldable pub in_send_window : Driver → ℕ → Bool
in_send_window w k =
    (leb_ℤ w.lar w.lfs && (ltb_ℤ w.lar (pos k) && leb_ℤ (pos k) w.lfs))
    || (ltb_ℤ w.lfs w.lar && (ltb_ℤ w.lar (pos k) || leb_ℤ (pos k) w.lfs))

apart :
    (lar lfs : ℤ) (k : ℕ)
    → ((leb_ℤ lar lfs && (ltb_ℤ lfs (pos k) || leb_ℤ (pos k) lar))
        || (ltb_ℤ lfs lar && (leb_ℤ (pos k) lar && ltb_ℤ lfs (pos k))))
      ≡ true
    → ((leb_ℤ lar lfs && (ltb_ℤ lar (pos k) && leb_ℤ (pos k) lfs))
        || (ltb_ℤ lfs lar && (ltb_ℤ lar (pos k) || leb_ℤ (pos k) lfs)))
      ≡ false
apart lar lfs k h = ground arith

room_apart : (w : Driver) → has_room w ≡ true → in_send_window w w.bufpos ≡ false
unfolding has_room in_send_window
room_apart w h = apart w.lar w.lfs w.bufpos h

-- Taking a block from ftpc changes no frame from the one behind `lar` on to `lfs`, also where these
-- go round the end of the buffer.
pub take_block-in_send_window :
    (w : Driver) (block : Block) (k : ℕ)
    → in_send_window w k ≡ true
    → slot (take_block w block).sendbuf k ≡ slot w.sendbuf k
unfolding take_block
take_block-in_send_window w block k flying = elim (Bool-cases (has_room w)) [
  | inl room ↦ rw room (get_or-set_ne w.sendbuf w.bufpos k _ [] (λ e. absurd (clash room e)))
  | inr full ↦ rw full
]
  where
    clash : has_room w ≡ true → w.bufpos ≡ k → ⊥
    clash room e = false≢true (sym (room_apart w room) ∙ ap (in_send_window w) e ∙ flying)
