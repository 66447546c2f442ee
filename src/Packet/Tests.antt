-- ===== src/Packet/Tests.antt =====
-- A packet with a body of three bytes, and the theorems at it.
use osu_cse.Base.{inr}
use osu_cse.Base.{
  ℕ, zero, suc, ◌<◌, length, length-replicate, List, [], ◌∷◌, ◌++◌, ◌≡◌, refl, replicate, arith,
}
use osu_cse.Base.Int.{pos, negsuc, ◌+ℤ◌, ◌-ℤ◌}
use osu_cse.Crc.{crc_init, crc_fast}
use osu_cse.Bytes.{int_bytes}
use osu_cse.Crc.Reference.{IsBytes}
use osu_cse.Buffer.{Block, buff_size, slots, blank, check_empty, clear}
use osu_cse.Receiver.{
  Window, initial, done, accept, in_window, store, slide, slid, forward, reads_outside, limit_lfr,
  wrap_laf,
}
use osu_cse.Receiver.Row.{blocks_from}
use osu_cse.Packet.{Packet, before_check, crc_bytes, packet_bytes, seal, serve}
use osu_cse.Packet.Sealing.{IsPacket, serve-seal}
use osu_cse.Packet.Garbling.{serve-garbled}
use osu_cse.Packet.Traffic.{
  IsGarbled, garbled, Traffic, quiet, sealed_comes, garbled_comes, Traffic-in_order,
}

abbrev packet : Packet
packet = record {
  ports = replicate 4 0;
  seq = 5;
  flags = replicate 8 0;
  urgent = replicate 2 0;
  padding = replicate 4 0;
  time_stamp = replicate 16 0;
  body = 10 ∷ 20 ∷ 30 ∷ [];
}

abbrev window_at_start : Window
window_at_start = record { recvbuf = replicate slots []; lfr = negsuc 0; laf = pos 19 }

packet-IsPacket : IsPacket packet
unfolding int_bytes
packet-IsPacket = record {
  ports = refl;
  seq = omega arith;
  flags = refl;
  urgent = refl;
  padding = refl;
  time_stamp = refl;
  bytes = omega arith;
}

serve-seal_example :
    serve crc_init window_at_start (seal crc_init packet)
    ≡ accept window_at_start (pos 5) (10 ∷ 20 ∷ 30 ∷ []) 3
serve-seal_example = serve-seal window_at_start packet packet-IsPacket

-- All of the packet in front of its last two bytes.
abbrev in_front : List ℕ
in_front =
    before_check packet
    ++ (crc_bytes (crc_fast crc_init (packet_bytes packet 0)) ++ (replicate 22 0 ++ (10 ∷ [])))

serve-garbled_example :
    serve crc_init window_at_start (in_front ++ (20 ∷ 31 ∷ [])) ≡ done window_at_start []
unfolding seal int_bytes
serve-garbled_example =
    serve-garbled window_at_start packet in_front [] 20 30 20 31 packet-IsPacket refl (omega arith)
      (omega arith) (omega arith) (omega arith) (λ same. absurd (omega (arith, same.1)))

-- A file whose block `j` has the byte `j + 1` throughout, and the packet with its first block.
abbrev file : ℕ → Block
file j = replicate 1000 (suc j)

file-full : (j : ℕ) → length (file j) ≡ buff_size
file-full j = length-replicate 1000 (suc j)

abbrev first_packet : Packet
first_packet = record packet { seq = 0; body = file 0 }

IsBytes-replicate : (n b : ℕ) → b < 256 → IsBytes (replicate n b)
IsBytes-replicate zero b h = tt
IsBytes-replicate (suc n) b h = (h, IsBytes-replicate n b h)

header-IsBytes : (n : ℕ) (rest : List ℕ) → IsBytes rest → IsBytes (replicate n 0 ++ rest)
header-IsBytes zero rest h = h
header-IsBytes (suc n) rest h = (omega arith, header-IsBytes n rest h)

first_packet-IsPacket : IsPacket first_packet
unfolding int_bytes
first_packet-IsPacket = record {
  ports = refl;
  seq = omega arith;
  flags = refl;
  urgent = refl;
  padding = refl;
  time_stamp = refl;
  bytes = header-IsBytes 40 (file 0) (IsBytes-replicate 1000 1 (omega arith));
}

bad : IsGarbled (in_front ++ (20 ∷ 31 ∷ []))
unfolding seal int_bytes
bad =
    garbled packet in_front [] 20 30 20 31 packet-IsPacket refl (omega arith) (omega arith)
      (omega arith) (omega arith) (λ same. absurd (omega (arith, same.1)))

bad_dropped : serve crc_init initial (in_front ++ (20 ∷ 31 ∷ [])) ≡ done initial []
unfolding seal int_bytes
bad_dropped =
    serve-garbled initial packet in_front [] 20 30 20 31 packet-IsPacket refl (omega arith)
      (omega arith) (omega arith) (omega arith) (λ same. absurd (omega (arith, same.1)))

abbrev first_gone : Window
first_gone = record { recvbuf = replicate slots blank; lfr = pos 0; laf = pos 20 }

first_sent : serve crc_init initial (seal crc_init first_packet) ≡ done first_gone (file 0 ∷ [])
unfolding accept in_window store slide slid forward reads_outside check_empty clear blank limit_lfr
    wrap_laf ◌+ℤ◌ ◌-ℤ◌
first_sent = serve-seal initial first_packet first_packet-IsPacket

some-Traffic : Traffic file first_gone (file 0 ∷ [])
some-Traffic =
    sealed_comes initial first_gone [] (file 0 ∷ []) 0 first_packet
      (garbled_comes initial initial [] [] (in_front ++ (20 ∷ 31 ∷ [])) quiet bad bad_dropped)
      first_packet-IsPacket refl (file-full 0, inr refl) (omega arith) (omega arith) first_sent

Traffic-in_order_example : file 0 ∷ [] ≡ blocks_from file 0 1
Traffic-in_order_example = Traffic-in_order file file-full first_gone (file 0 ∷ []) some-Traffic
