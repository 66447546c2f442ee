-- ===== src/Session/Tests.antt =====
-- A round of the driver and the packet that it sends, and the theorems at it.
use osu_cse.Base.{
  ℕ, zero, suc, ◌≤◌, ◌<◌, ◌≡◌, refl, List, [], ◌∷◌, ◌++◌, length, replicate, some, none, false,
  arith,
}
use osu_cse.Base.Int.{pos, ◌+ℤ◌, ◌-ℤ◌}
use mathlib.Core.List.Memᴰ.{head}
use osu_cse.Bytes.{int_bytes}
use osu_cse.Timeval.{Timeval}
use osu_cse.Crc.{crc_init}
use osu_cse.Crc.Reference.{IsBytes}
use osu_cse.Buffer.{Block, buff_size, slots, blank, check_empty, clear}
use osu_cse.Receiver.{
  Window, initial, done, accept, in_window, store, slide, slid, forward, reads_outside, limit_lfr,
  wrap_laf,
}
use osu_cse.Receiver.Row.{blocks_from}
use osu_cse.Packet.{Packet, seal, serve}
use osu_cse.Packet.Sealing.{IsPacket, serve-seal}
use osu_cse.Driver.{Driver, Sent, unsent, transmit, send_next, take_block, has_room, may_send}
use osu_cse.Driver.Rounds.{Ready, went_on, on_request, on_block, on_ack, sent_last}
use osu_cse.Session.{Session, opened, round_over, packet_comes}
use mathlib.Core.Path.{subst, fun_ext}
use osu_cse.Base.{get_or, take, sym, ap, ◌∙◌}
use osu_cse.Bytes.{strncpy}
use osu_cse.Bytes.Laws.{below_zero_byte}
use osu_cse.Ftp.{send_file, carried_file, header, blocks_of, finished, receive_file}
use osu_cse.Ftp.Starts.{IsStart}
use osu_cse.Session.Files.{transfer, AreSolid, Session-writes}
use osu_cse.Session.Delivery.{Session-delivers}
use osu_cse.Session.Order.{Session-in_order, Session-at_most}

abbrev clock : Timeval
clock = record { tv_sec = pos 3; tv_usec = pos 0 }

abbrev no_time : List ℕ → Timeval
no_time stamp = clock

-- The messages for a file of one byte, and blocks of ones behind them.
abbrev first_message : Block
first_message = 1 ∷ 0 ∷ 0 ∷ 0 ∷ 65 ∷ replicate 995 0

abbrev second_message : Block
second_message = 10 ∷ replicate 999 0

abbrev file : ℕ → Block
file zero = first_message
file (suc zero) = second_message
file (suc (suc j)) = replicate 1000 1

file-full : (j : ℕ) → length (file j) ≡ buff_size
file-full zero = refl
file-full (suc zero) = refl
file-full (suc (suc j)) = refl

file-solid : (j : ℕ) → check_empty (file j) ≡ false
unfolding check_empty
file-solid zero = refl
file-solid (suc zero) = refl
file-solid (suc (suc j)) = refl

messages : carried_file (10 ∷ []) (65 ∷ []) ≡ first_message ∷ second_message ∷ []
unfolding send_file carried_file header blocks_of blank strncpy int_bytes
messages = refl

file-transfer : (j : ℕ) → file j ≡ transfer (10 ∷ []) (65 ∷ []) j
file-transfer j = same j ∙ ap (λ l. get_or l j (replicate 1000 1)) (sym messages)
  where
    same : (j : ℕ) → file j ≡ get_or (first_message ∷ second_message ∷ []) j (replicate 1000 1)
    same zero = refl
    same (suc zero) = refl
    same (suc (suc j)) = refl

messages-AreSolid : AreSolid (carried_file (10 ∷ []) (65 ∷ []))
messages-AreSolid = subst AreSolid (sym messages) (file-solid 0, (file-solid 1, tt))

-- The first block comes from ftpc.
abbrev first_ready : Ready
first_ready = record { request = none; block = some (file 0); ack = none; now = clock }

abbrev loaded : Driver
loaded = on_block unsent (some (file 0))

abbrev after_first : Driver
after_first = (send_next loaded).0

abbrev first_frame : Sent
first_frame = (transmit loaded 0).1

first_sent : sent_last (send_next loaded) ≡ went_on after_first (first_frame ∷ []) []
unfolding send_next may_send on_block take_block has_room ◌+ℤ◌ ◌-ℤ◌
first_sent = refl

one_round : Session no_time file after_first initial 1 1 ((0, first_frame) ∷ []) []
unfolding on_request on_ack has_room blank ◌-ℤ◌ ◌+ℤ◌
one_round =
    round_over unsent unsent loaded after_first initial 0 0 0 first_ready [] [] [] []
      (first_frame ∷ []) [] [] [] opened refl tt refl refl first_sent

abbrev packet : Packet
packet = record {
  ports = replicate 4 0;
  seq = 0;
  flags = replicate 8 0;
  urgent = replicate 2 0;
  padding = replicate 4 0;
  time_stamp = replicate 16 0;
  body = file 0;
}

IsBytes-row : (n b : ℕ) (rest : List ℕ) → b < 256 → IsBytes rest → IsBytes (replicate n b ++ rest)
IsBytes-row zero b rest h bytes = bytes
IsBytes-row (suc n) b rest h bytes = (h, IsBytes-row n b rest h bytes)

packet-IsPacket : IsPacket packet
unfolding int_bytes
packet-IsPacket = record {
  ports = refl;
  seq = omega arith;
  flags = refl;
  urgent = refl;
  padding = refl;
  time_stamp = refl;
  bytes = IsBytes-row 40 0 (file 0) (omega arith) (
    omega arith,
    (
      omega arith,
      (omega arith, (omega arith, (omega arith, IsBytes-row 995 0 [] (omega arith) tt))),
    ),
  );
}

abbrev first_gone : Window
first_gone = record { recvbuf = replicate slots blank; lfr = pos 0; laf = pos 20 }

first_delivered : serve crc_init initial (seal crc_init packet) ≡ done first_gone (file 0 ∷ [])
unfolding accept in_window store slide slid forward reads_outside check_empty clear blank limit_lfr
    wrap_laf ◌+ℤ◌ ◌-ℤ◌
first_delivered = serve-seal initial packet packet-IsPacket

same_body : file 0 ≡ first_frame.body
unfolding transmit on_block take_block has_room blank ◌+ℤ◌ ◌-ℤ◌
same_body = refl

first_over : Session no_time file after_first first_gone 1 1 ((0, first_frame) ∷ []) (file 0 ∷ [])
unfolding transmit
first_over =
    packet_comes after_first initial first_gone 1 1 0 ((0, first_frame) ∷ []) [] (file 0 ∷ [])
      first_frame packet one_round (head refl) packet-IsPacket refl same_body (omega arith)
      (omega arith) first_delivered

Session-in_order_example : file 0 ∷ [] ≡ blocks_from file 0 1
Session-in_order_example =
    Session-in_order file no_time file-full file-solid after_first first_gone 1 1
      ((0, first_frame) ∷ []) (file 0 ∷ []) first_over

Session-at_most_example : 1 ≤ 84
Session-at_most_example =
    Session-at_most file no_time file-full file-solid after_first first_gone 1 1
      ((0, first_frame) ∷ []) (file 0 ∷ []) first_over

over_transfer :
    Session no_time
      (transfer (10 ∷ []) (65 ∷ []))
      after_first
      first_gone
      1
      1
      ((0, first_frame) ∷ [])
      (file 0 ∷ [])
over_transfer =
    subst (λ f. Session no_time f after_first first_gone 1 1 ((0, first_frame) ∷ []) (file 0 ∷ []))
      (fun_ext file-transfer) first_over

Session-writes_example :
    IsStart (receive_file (file 0 ∷ [])) (finished (take (below_zero_byte 1) (10 ∷ [])))
Session-writes_example =
    Session-writes (10 ∷ []) (65 ∷ []) no_time after_first first_gone 1 1 ((0, first_frame) ∷ [])
      (file 0 ∷ []) (omega arith) messages-AreSolid over_transfer

file-IsBytes : (j : ℕ) → IsBytes (file j)
file-IsBytes zero = (
  omega arith,
  (omega arith, (omega arith, (omega arith, (omega arith, IsBytes-row 995 0 [] (omega arith) tt)))),
)
file-IsBytes (suc zero) = (omega arith, IsBytes-row 999 0 [] (omega arith) tt)
file-IsBytes (suc (suc j)) = IsBytes-row 1000 1 [] (omega arith) tt

Session-delivers_example :
    (w : Driver) × (v : Window) × (net : List (ℕ × Sent)) × (rest : List Block) × Session no_time
      file w v 2 2 net
      (blocks_from file 0 2 ++ rest)
Session-delivers_example =
    Session-delivers file no_time clock file-full file-solid file-IsBytes 2 (omega arith)
