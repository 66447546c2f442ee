-- ===== src/Session.antt =====
-- Both daemons of tcpd.c and the network between them: the driver in `client` works round by round on
-- what ftpc, its timer and the network bring, and `server` on the packets that reach it.
pub mod Order
pub mod Files
pub mod Early
pub mod Delivery
mod Tests
use osu_cse.Base.{ℕ, ◌+◌, ◌≤◌, ◌<◌, ◌≡◌, List, [], ◌∷◌, ◌++◌, length}
use mathlib.Core.List.{Memᴰ}
use osu_cse.Timeval.{Timeval}
use osu_cse.Crc.{crc_init}
use osu_cse.Buffer.{Block, slots}
use osu_cse.Receiver.{Window, done, initial}
use osu_cse.Packet.{Packet, seal, serve}
use osu_cse.Packet.Sealing.{IsPacket}
use osu_cse.Packet.Traffic.{IsGarbled}
use osu_cse.Driver.{Driver, Sent, unsent, send_next}
use osu_cse.Driver.Rounds.{Ready, went_on, on_request, on_block, on_ack, sent_last}
use osu_cse.Driver.Marks.{requested_block, IsAnswer, IsNextBlock, taken_after}

-- The frames with block `j`.
abbrev pub numbered : ℕ → List Sent → List (ℕ × Sent)
numbered j [] = []
numbered j (frame ∷ frames) = (j, frame) ∷ numbered j frames

-- The driver and the server after any such steps, with the numbers of blocks of the file that were
-- sent and taken from ftpc, all frames that the driver ever sent, each with the number of its block,
-- and all that the server sent on to ftps.
pub data Session (time_of : List ℕ → Timeval) (f : ℕ → Block)
    : Driver → Window → ℕ → ℕ → List (ℕ × Sent) → List Block → Type 0 where
  opened : Session time_of f unsent initial 0 0 [] []
  -- A round of the driver with no access outside its buffer. The timer may ask for any frame; the next
  -- message from ftpc, with zeros behind it, is the next block of the file; an acknowledgement is for block `j`, which was sent, is less
  -- than 64 behind the last one taken, and need not have reached the server.
  round_over :
      (w w' w'' after : Driver) (v : Window) (s b j : ℕ) (r : Ready) (net : List (ℕ × Sent))
      (sent : List Block) (again during next : List Sent) (ids ids' ids'' : List ℕ)
      → Session time_of f w v s b net sent
      → IsNextBlock f b r.block
      → IsAnswer s (taken_after w' r.block b) j r.ack
      → on_request w r.request ≡ went_on w' again ids
      → on_ack time_of r.now (on_block w' r.block) r.ack ≡ went_on w'' during ids'
      → sent_last (send_next w'') ≡ went_on after next ids''
      → Session time_of f after v
          (s + length next)
          (taken_after w' r.block b)
          (net ++ (numbered (requested_block b r.request) again ++ numbered s next))
          sent
  -- A packet with a frame that was sent reaches the server, unless it is more than 44 behind, or 64
  -- or more ahead of, the block that the server waits for.
  packet_comes :
      (w : Driver) (v v' : Window) (s b j : ℕ) (net : List (ℕ × Sent)) (sent more : List Block)
      (frame : Sent) (p : Packet)
      → Session time_of f w v s b net sent
      → Memᴰ (j, frame) net
      → IsPacket p
      → p.seq ≡ frame.seq
      → p.body ≡ frame.body
      → length sent ≤ j + 44
      → j < length sent + slots
      → serve crc_init v (seal crc_init p) ≡ done v' more
      → Session time_of f w v' s b net (sent ++ more)
  -- A packet comes with two neighbouring bytes behind its checksum changed.
  noise_comes :
      (w : Driver) (v v' : Window) (s b : ℕ) (net : List (ℕ × Sent)) (sent more : List Block)
      (message : List ℕ)
      → Session time_of f w v s b net sent
      → IsGarbled message
      → serve crc_init v message ≡ done v' more
      → Session time_of f w v' s b net (sent ++ more)
