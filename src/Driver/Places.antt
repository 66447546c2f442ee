-- ===== src/Driver/Places.antt =====
-- The driver's indexes for blocks that are counted from the first one of the file: `a` of them are
-- acknowledged, `s` are sent and `b` were taken from ftpc.
use osu_cse.Base.{ℕ, suc, ◌+◌, ◌%◌, ◌≤◌, ◌<◌, ◌≡◌, refl, true, false, arith}
use osu_cse.Base.{Bool, ◌&&◌, ◌||◌, leb, if◌then◌else◌, inl, inr, Bool-cases, ◌==◌, ◌⊎◌}
use osu_cse.Base.Int.{int_laws, parts_apart, pos, pos_part, ◌+ℤ◌, ◌-ℤ◌, leb_ℤ, ltb_ℤ}
use osu_cse.Buffer.{slots, window}
use osu_cse.Driver.{Driver, has_room, may_send, next_lfs}

-- The window is at most one frame too wide, the buffer holds the blocks from `a` on, and at most 46
-- of them wait.
pub record IsCount (a s b : ℕ) : Type 0 where
  pub below_end : a ≤ 63
  pub acked : a ≤ s
  pub ahead : s ≤ a + 21
  pub taken : s ≤ b
  pub room : b ≤ a + 64
  pub wait : b ≤ s + 46

-- Only if the buffer is full as many as 46 wait after a round.
abbrev pub IsHeld : ℕ → ℕ → ℕ → Type 0
IsHeld a s b = (b ≤ s + 45) ⊎ (b ≡ a + 64)

pub record IsPlaced (w : Driver) (a s b : ℕ) : Type 0 where
  pub lar : w.lar ≡ pos a -ℤ pos 1
  pub lfs : w.lfs ≡ pos (s % slots) -ℤ pos 1
  pub bufpos : w.bufpos ≡ b % slots

room_count :
    (a s b k p : ℕ)
    → IsCount a s b
    → IsHeld a s b
    → k ≡ s % slots
    → p ≡ b % slots
    → ((leb_ℤ (pos a -ℤ pos 1) (pos k -ℤ pos 1)
          && (ltb_ℤ (pos k -ℤ pos 1) (pos p) || leb_ℤ (pos p) (pos a -ℤ pos 1)))
        || (ltb_ℤ (pos k -ℤ pos 1) (pos a -ℤ pos 1)
            && (leb_ℤ (pos p) (pos a -ℤ pos 1) && ltb_ℤ (pos k -ℤ pos 1) (pos p))))
      ≡ true
    → b < a + 64
room_count a s b k p v (inl few) hk hp h = unfold ◌-ℤ◌ ◌+ℤ◌ in ground arith
room_count a s b k p v (inr filled) hk hp h = unfold ◌-ℤ◌ ◌+ℤ◌ in ground arith

-- The test of `may_send` for these indexes.
abbrev sends : ℕ → ℕ → ℕ → Bool
sends a k p =
    (leb_ℤ (pos a -ℤ pos 1) (pos k -ℤ pos 1)
      && (ltb_ℤ (pos k -ℤ pos 1 -ℤ (pos a -ℤ pos 1)) (pos window)
          && (ltb_ℤ (pos k -ℤ pos 1 +ℤ pos 1) (pos p) || leb_ℤ (pos p) (pos a -ℤ pos 1))))
    || (ltb_ℤ (pos k -ℤ pos 1) (pos a -ℤ pos 1)
        && (ltb_ℤ (pos 63 -ℤ (pos a -ℤ pos 1) +ℤ (pos k -ℤ pos 1)) (pos window)
            && ltb_ℤ (pos k -ℤ pos 1 +ℤ pos 1) (pos p)))

sends-true :
    (a s b k p : ℕ)
    → IsCount a s b
    → k ≡ s % slots
    → p ≡ b % slots
    → sends a k p ≡ true
    → (s < b) × (s ≤ a + 20)
sends-true a s b k p v hk hp h = unfold ◌-ℤ◌ ◌+ℤ◌ in ground arith

sends-false :
    (a s b k p : ℕ)
    → IsCount a s b
    → k ≡ s % slots
    → p ≡ b % slots
    → sends a k p ≡ false
    → IsHeld a s b
sends-false a s b k p v hk hp h = elim (Bool-cases (leb b (s + 45))) [
  | inl few ↦ inl (ground arith)
  | inr many ↦ inr (unfold ◌-ℤ◌ ◌+ℤ◌ in ground arith)
]

pub next_lfs_count : (s : ℕ) → next_lfs (pos (s % slots) -ℤ pos 1) ≡ pos (suc s % slots) -ℤ pos 1
unfolding next_lfs
next_lfs_count s = unfold ◌-ℤ◌ ◌+ℤ◌ in ground arith

pub has_room-lt :
    (w : Driver) (a s b : ℕ)
    → IsPlaced w a s b
    → IsCount a s b
    → IsHeld a s b
    → has_room w ≡ true
    → b < a + 64
unfolding has_room
has_room-lt w a s b p v held h =
    room_count a s b (s % slots) (b % slots) v held refl refl (rw (p.lar, p.lfs, p.bufpos) at h)

pub may_send-lt :
    (w : Driver) (a s b : ℕ)
    → IsPlaced w a s b
    → IsCount a s b
    → may_send w ≡ true
    → (s < b) × (s ≤ a + 20)
unfolding may_send
may_send-lt w a s b p v h =
    sends-true a s b (s % slots) (b % slots) v refl refl (rw (p.lar, p.lfs, p.bufpos) at h)

pub may_send-IsHeld :
    (w : Driver) (a s b : ℕ) → IsPlaced w a s b → IsCount a s b → may_send w ≡ false → IsHeld a s b
unfolding may_send
may_send-IsHeld w a s b p v h =
    sends-false a s b (s % slots) (b % slots) v refl refl (rw (p.lar, p.lfs, p.bufpos) at h)

pub next_bufpos : (b : ℕ) → (if b % slots + 1 == slots then 0 else b % slots + 1) ≡ suc b % slots
next_bufpos b = ground arith

pub lfs-frame : (s : ℕ) → pos_part (pos (s % slots) -ℤ pos 1 +ℤ pos 1) ≡ s % slots
lfs-frame s = omega (int_laws, parts_apart (pos (s % slots) -ℤ pos 1 +ℤ pos 1))
