-- ===== src/Driver/Marks.antt =====
-- What holds of the driver's buffer, its frames and what reaches it, in numbers of blocks of a file.
use osu_cse.Base.{ℕ, suc, true, ◌≤◌, ◌+◌, ◌%◌, ◌<◌, ◌≡◌}
use osu_cse.Base.{ltb, Option, some, none, if◌then◌else◌}
use osu_cse.Base.{List, [], ◌∷◌, length}
use osu_cse.Buffer.{Block, slots, blank, slot, overlay, check_empty}
use osu_cse.Crc.{crc_init}
use osu_cse.Message.{read_resend}
use osu_cse.Ack.{open_ack}
use osu_cse.Driver.{Driver, Sent, has_room}
use osu_cse.Driver.Rounds.{RoundOutcome, went_on, crashed}
use osu_cse.Driver.Places.{IsCount, IsHeld, IsPlaced}
use osu_cse.Driver.Filled.{IsFilled}
use osu_cse.Receiver.Contents.{IsBody}

-- A frame with block `j`, or with zeros in its place.
pub record IsFrame (f : ℕ → Block) (j : ℕ) (frame : Sent) : Type 0 where
  pub seq : frame.seq ≡ j % slots
  pub body : IsBody f j frame.body

abbrev pub AreFrames : (ℕ → Block) → ℕ → List Sent → Type 0
AreFrames f j [] = Unit
AreFrames f j (frame ∷ frames) = IsFrame f j frame × AreFrames f j frames

-- Of the file's blocks `b` are taken, `s` sent, and the first `a` acknowledged.
pub record IsSending (f : ℕ → Block) (w : Driver) (a s b : ℕ) : Type 0 where
  pub count : IsCount a s b
  pub placed : IsPlaced w a s b
  pub filled : IsFilled f w.sendbuf s b
  pub passed : (j : ℕ) → j < a → b ≤ j + slots → check_empty (slot w.sendbuf j) ≡ true

abbrev pub IsAfter : (Driver → List Sent → Type 0) → RoundOutcome → Type 0
IsAfter P crashed = Unit
IsAfter P (went_on w frames ids) = P w frames

-- The number of a block that was sent, less than 64 blocks behind the newest in the buffer.
abbrev pub IsRecent : ℕ → ℕ → ℕ → ℕ → Type 0
IsRecent s b j k = (k ≡ j % slots) × (j < s) × (b < j + slots)

-- The block that was last put into a slot, once `b` of them are taken; for a slot that is not used
-- yet, the one that comes into it.
abbrev pub in_slot : ℕ → ℕ → ℕ
in_slot b id = if ltb (id + slots) b then id + slots else id

-- The block for which the timer asks, if it does.
abbrev pub asked_for : ℕ → Option ℕ → ℕ
asked_for b none = 0
asked_for b (some id) = in_slot b id

abbrev pub requested_block : ℕ → Option (List ℕ) → ℕ
requested_block b none = 0
requested_block b (some bufin) = asked_for b (read_resend bufin)

-- An acknowledgement of block `j`, if it is one.
abbrev pub IsNumbered : ℕ → ℕ → ℕ → Option (ℕ × List ℕ) → Type 0
IsNumbered s b j none = Unit
IsNumbered s b j (some (ack, stamp)) = IsRecent s b j ack

abbrev pub IsAnswer : ℕ → ℕ → ℕ → Option (List ℕ) → Type 0
IsAnswer s b j none = Unit
IsAnswer s b j (some ackbuf) = IsNumbered s b j (open_ack crc_init ackbuf)

-- The next message from ftpc, if there is one: with zeros behind it, it is the next block.
abbrev pub IsNextBlock : (ℕ → Block) → ℕ → Option Block → Type 0
IsNextBlock f b none = Unit
IsNextBlock f b (some block) = overlay block blank ≡ f b

-- The blocks taken afterwards.
abbrev pub taken_after : Driver → Option Block → ℕ → ℕ
taken_after w none b = b
taken_after w (some block) b = if has_room w then suc b else b

-- Frames with block `j` went out, and no more is acknowledged, sent or taken.
abbrev pub IsResent : (ℕ → Block) → ℕ → ℕ → ℕ → ℕ → Driver → List Sent → Type 0
IsResent f a s b j w frames = IsSending f w a s b × AreFrames f j frames

-- More may be acknowledged.
abbrev pub IsCleared : (ℕ → Block) → ℕ → ℕ → Driver → List Sent → Type 0
IsCleared f s b w frames = ((a : ℕ) × IsSending f w a s b) × (frames ≡ [])

-- The frames with the blocks from `s` on went out, which are none or one.
abbrev pub IsSentOn : (ℕ → Block) → ℕ → ℕ → ℕ → Driver → List Sent → Type 0
IsSentOn f a s b w frames =
    IsSending f w a (s + length frames) b × IsHeld a (s + length frames) b × AreFrames f s frames
