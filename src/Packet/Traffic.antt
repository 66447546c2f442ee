-- ===== src/Packet/Traffic.antt =====
-- What the server sends on when packets with the blocks of a file come, and garbled ones.
use osu_cse.Base.{ℕ, ◌+◌, ◌%◌, ◌≤◌, ◌<◌, ◌≡◌, sym, ap, ◌∙◌}
use osu_cse.Base.{List, [], ◌∷◌, ◌++◌, length}
use osu_cse.Base.Int.{pos}
use mathlib.Core.Path.{subst}
use mathlib.Core.List.{append-nil}
use osu_cse.Crc.{crc_init}
use osu_cse.Crc.Reference.{IsBytes}
use osu_cse.Buffer.{Block, buff_size, slots}
use osu_cse.Receiver.{Window, Outcome, done, fault, initial, accept}
use osu_cse.Receiver.Row.{blocks_from}
use osu_cse.Receiver.Contents.{IsBody}
use osu_cse.Receiver.Order.{Arrivals, nothing, arrival, arrivals_in_order}
use osu_cse.Packet.{Packet, seal, serve}
use osu_cse.Packet.Sealing.{IsPacket, serve-seal}
use osu_cse.Packet.Garbling.{serve-garbled}

-- A sealed packet with two neighbouring bytes behind its checksum replaced by two others.
pub data IsGarbled : List ℕ → Type 0 where
  garbled :
      (p : Packet) (xs ys : List ℕ) (b c b' c' : ℕ)
      → IsPacket p
      → seal crc_init p ≡ xs ++ (b ∷ c ∷ ys)
      → 18 ≤ length xs
      → IsBytes (b ∷ c ∷ ys)
      → b' < 256
      → c' < 256
      → ¬ ((b ≡ b') × (c ≡ c'))
      → IsGarbled (xs ++ (b' ∷ c' ∷ ys))

-- Messages that the server takes one after the other, and all that it sends on: packets that the
-- driver sealed, none of which is more than 44 behind, or 64 or more ahead of, the block that is
-- waited for, and packets garbled so.
pub data Traffic (f : ℕ → Block) : Window → List Block → Type 0 where
  quiet : Traffic f initial []
  sealed_comes :
      (w w' : Window) (sent more : List Block) (j : ℕ) (p : Packet)
      → Traffic f w sent
      → IsPacket p
      → p.seq ≡ j % slots
      → IsBody f j p.body
      → length sent ≤ j + 44
      → j < length sent + slots
      → serve crc_init w (seal crc_init p) ≡ done w' more
      → Traffic f w' (sent ++ more)
  garbled_comes :
      (w w' : Window) (sent more : List Block) (message : List ℕ)
      → Traffic f w sent
      → IsGarbled message
      → serve crc_init w message ≡ done w' more
      → Traffic f w' (sent ++ more)

module _ (f : ℕ → Block) where
  abbrev IsAfter : List Block → Outcome → Type 0
  IsAfter sent fault = ⊥
  IsAfter sent (done w more) = Arrivals f w (sent ++ more)

  dropped :
      (w : Window) (message : List ℕ) → IsGarbled message → serve crc_init w message ≡ done w []
  dropped w _ (garbled p xs ys b c b' c' v e h bytes hb hc differs) =
      serve-garbled w p xs ys b c b' c' v e h bytes hb hc differs

  pub traffic-Arrivals : (w : Window) (sent : List Block) → Traffic f w sent → Arrivals f w sent
  traffic-Arrivals _ _ quiet = nothing
  traffic-Arrivals _ _ (sealed_comes w w' sent more j p before v number of late early taken) =
      arrival w w' sent more j p.body (traffic-Arrivals w sent before) of late early (
        ap (λ k. accept w (pos k) p.body (length p.body)) (sym number)
        ∙ sym (serve-seal w p v)
        ∙ taken)
  traffic-Arrivals _ _ (garbled_comes w w' sent more message before bad taken) =
      subst (IsAfter sent) (sym (dropped w message bad) ∙ taken)
        (subst (Arrivals f w) (sym (append-nil sent)) (traffic-Arrivals w sent before))

  -- Whichever of the packets with the full blocks of a file, or zeros in their place, reach the server, in whatever order and
  -- how often, but for packets that are more than 44 behind or 64 or more ahead of the block that is
  -- waited for, and whatever sealed packets come between them in which two neighbouring bytes behind the checksum were changed, the server sends on the blocks of
  -- the file from the first one, in order, without a gap or a repeat.
  pub Traffic-in_order :
      ((j : ℕ) → length (f j) ≡ buff_size)
      → (w : Window) (sent : List Block) → Traffic f w sent
      → sent ≡ blocks_from f 0 (length sent)
  Traffic-in_order full w sent run = arrivals_in_order f full w sent (traffic-Arrivals w sent run)
