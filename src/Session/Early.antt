-- ===== src/Session/Early.antt =====
-- The first blocks of a session, before any acknowledgement: the tests of the driver, the packet of a
-- block, and where the server's window stands.
use osu_cse.Base.{ℕ, zero, suc, ◌%◌, ◌≤◌, ◌<◌, ◌≡◌, refl, arith, inl, inr, ◌⊎◌}
use osu_cse.Base.{true, false, Bool-cases, ltb, ◌&&◌, ◌||◌}
use osu_cse.Base.{List, ◌++◌, replicate}
use osu_cse.Base.Int.{int_laws, parts_apart, pos, pos_part, ◌+ℤ◌, ◌-ℤ◌, leb_ℤ, ltb_ℤ}
use osu_cse.Bytes.{int_bytes}
use osu_cse.Crc.Reference.{IsBytes}
use osu_cse.Buffer.{Block, slots, window}
use osu_cse.Receiver.{Window, first}
use osu_cse.Receiver.Invariant.{IsWindow}
use osu_cse.Packet.{Packet}
use osu_cse.Packet.Sealing.{IsPacket}
use osu_cse.Driver.{Driver, has_room, may_send}
use osu_cse.Driver.Places.{IsPlaced}

-- While nothing is acknowledged and the buffer did not go round, a block is taken and its frame sent.
pub has_room-early : (w : Driver) (k : ℕ) → IsPlaced w 0 k k → k < 20 → has_room w ≡ true
unfolding has_room
has_room-early w k p h = rw (p.lar, p.lfs, p.bufpos) (go k h)
  where
    go :
        (k : ℕ)
        → k < 20
        → ((leb_ℤ (pos 0 -ℤ pos 1) (pos (k % slots) -ℤ pos 1)
              && (ltb_ℤ (pos (k % slots) -ℤ pos 1) (pos (k % slots))
                  || leb_ℤ (pos (k % slots)) (pos 0 -ℤ pos 1)))
            || (ltb_ℤ (pos (k % slots) -ℤ pos 1) (pos 0 -ℤ pos 1)
                && (leb_ℤ (pos (k % slots)) (pos 0 -ℤ pos 1)
                    && ltb_ℤ (pos (k % slots) -ℤ pos 1) (pos (k % slots)))))
          ≡ true
    go k h = unfold ◌-ℤ◌ ◌+ℤ◌ in ground arith

pub may_send-early : (w : Driver) (k : ℕ) → IsPlaced w 0 k (suc k) → k < 20 → may_send w ≡ true
unfolding may_send
may_send-early w k p h = rw (p.lar, p.lfs, p.bufpos) (go k h)
  where
    go :
        (k : ℕ)
        → k < 20
        → ((leb_ℤ (pos 0 -ℤ pos 1) (pos (k % slots) -ℤ pos 1)
              && (ltb_ℤ (pos (k % slots) -ℤ pos 1 -ℤ (pos 0 -ℤ pos 1)) (pos window)
                  && (ltb_ℤ (pos (k % slots) -ℤ pos 1 +ℤ pos 1) (pos (suc k % slots))
                      || leb_ℤ (pos (suc k % slots)) (pos 0 -ℤ pos 1))))
            || (ltb_ℤ (pos (k % slots) -ℤ pos 1) (pos 0 -ℤ pos 1)
                && (ltb_ℤ (pos 63 -ℤ (pos 0 -ℤ pos 1) +ℤ (pos (k % slots) -ℤ pos 1)) (pos window)
                    && ltb_ℤ (pos (k % slots) -ℤ pos 1 +ℤ pos 1) (pos (suc k % slots)))))
          ≡ true
    go k h = unfold ◌-ℤ◌ ◌+ℤ◌ in ground arith

-- The packet with block `j`.
abbrev pub plain : (ℕ → Block) → ℕ → Packet
plain f j = record {
  ports = replicate 4 0;
  seq = j % slots;
  flags = replicate 8 0;
  urgent = replicate 2 0;
  padding = replicate 4 0;
  time_stamp = replicate 16 0;
  body = f j;
}

IsBytes-zeros : (n : ℕ) (rest : List ℕ) → IsBytes rest → IsBytes (replicate n 0 ++ rest)
IsBytes-zeros zero rest h = h
IsBytes-zeros (suc n) rest h = (omega arith, IsBytes-zeros n rest h)

pub plain-IsPacket : (f : ℕ → Block) (j : ℕ) → IsBytes (f j) → IsPacket (plain f j)
unfolding int_bytes
plain-IsPacket f j h = record {
  ports = refl;
  seq = omega arith;
  flags = refl;
  urgent = refl;
  padding = refl;
  time_stamp = refl;
  bytes = IsBytes-zeros 4 (int_bytes (j % slots) ++ (replicate 32 0 ++ f j)) numbered;
}
  where
    numbered : IsBytes (int_bytes (j % slots) ++ (replicate 32 0 ++ f j))
    numbered = (omega arith, (omega arith, (omega arith, (omega arith, IsBytes-zeros 32 (f j) h))))

pub within :
    (v : Window) (n : ℕ)
    → IsWindow v
    → first v % slots ≡ n % slots
    → 1 ≤ n
    → (first v < slots) ⊎ (slots ≤ n)
within v n h place some_sent = elim (Bool-cases (ltb n slots)) [
  | inl few ↦ inl (inside few)
  | inr many ↦ inr (beyond many)
]
  where
    beyond : ltb n slots ≡ false → slots ≤ n
    beyond e = ground arith

    below : pos_part (v.lfr +ℤ pos 1) ≤ 64
    below = omega (int_laws, parts_apart (v.lfr +ℤ pos 1), h.high, h.low)

    inside : ltb n slots ≡ true → first v < slots
    inside e = omega (arith, less e, place, below, some_sent)
      where
        less : ltb n slots ≡ true → n < slots
        less e = ground arith
