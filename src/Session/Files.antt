-- ===== src/Session/Files.antt =====
-- What ftps.c writes in the end: ftpc.c, both daemons of tcpd.c and the network put together.
use osu_cse.Base.{ℕ, zero, suc, ◌+◌, ◌<◌, ◌^◌, ◌≡◌, refl, sym, ap, ◌∙◌, arith, inl, inr, ◌⊎◌}
use osu_cse.Base.{false}
use osu_cse.Base.{List, [], ◌∷◌, ◌++◌, length, take, replicate, get_or}
use mathlib.Core.Path.{subst}
use osu_cse.Timeval.{Timeval}
use osu_cse.Bytes.Laws.{below_zero_byte}
use osu_cse.Buffer.{Block, buff_size, check_empty}
use osu_cse.Receiver.{Window}
use osu_cse.Receiver.Row.{blocks_from}
use osu_cse.Driver.{Driver, Sent}
use osu_cse.Ftp.{carried_file}
use osu_cse.Ftp.{finished, receive_file}
use osu_cse.Ftp.Transfer.{receive_file-carried_file}
use osu_cse.Ftp.Starts.{IsStart, receive_file-IsStart, length-carried_file}
use osu_cse.Session.{Session}
use osu_cse.Session.Order.{Session-in_order}

-- One of two lists is a first part of the other.
IsAlong : List Block → List Block → Type 0
IsAlong xs ys =
    ((more : List Block) × (xs ++ more ≡ ys)) ⊎ ((more : List Block) × (ys ++ more ≡ xs))

blocks_from-IsAlong :
    (f : ℕ → Block) (d : Block) (blocks : List Block) (n i : ℕ)
    → ((k : ℕ) → f (i + k) ≡ get_or blocks k d)
    → IsAlong (blocks_from f i n) blocks
unfolding IsAlong
blocks_from-IsAlong f d [] n i h = inr (blocks_from f i n, refl)
blocks_from-IsAlong f d (x ∷ blocks) zero i h = inl (x ∷ blocks, refl)
blocks_from-IsAlong f d (x ∷ blocks) (suc n) i h = longer (
    blocks_from-IsAlong f d blocks n (suc i)
      (λ k. ap f {x = suc i + k} {y = i + suc k} (omega arith) ∙ h (suc k)))
  where
    first : f i ≡ x
    first = ap f {x = i} {y = i + 0} (omega arith) ∙ h 0

    longer :
        IsAlong (blocks_from f (suc i) n) blocks
        → IsAlong (f i ∷ blocks_from f (suc i) n) (x ∷ blocks)
    longer (inl (more, e)) =
        inl (more, ap (λ y. y ∷ (blocks_from f (suc i) n ++ more)) first ∙ ap (λ l. x ∷ l) e)
    longer (inr (more, e)) =
        inr (more, ap (λ y. y ∷ (blocks ++ more)) (sym first) ∙ ap (λ l. f i ∷ l) e)

-- The messages of ftpc for a file, and blocks of ones behind them.
abbrev pub transfer : List ℕ → List ℕ → ℕ → Block
transfer file name j = get_or (carried_file file name) j (replicate buff_size 1)

abbrev pub AreSolid : List Block → Type 0
AreSolid [] = Unit
AreSolid (block ∷ blocks) = (check_empty block ≡ false) × AreSolid blocks

ones_solid : check_empty (replicate buff_size 1) ≡ false
unfolding check_empty
ones_solid = refl

get_or-IsSolid :
    (blocks : List Block) (j : ℕ)
    → AreSolid blocks
    → check_empty (get_or blocks j (replicate buff_size 1)) ≡ false
get_or-IsSolid [] j h = ones_solid
get_or-IsSolid (block ∷ blocks) zero h = h.0
get_or-IsSolid (block ∷ blocks) (suc j) h = get_or-IsSolid blocks j h.1

-- For a file shorter than 2 ^ 31 bytes none of whose messages is zero, in every session, whatever is
-- lost, repeated or late and whatever the timer asks for: what ftps has written of what the server sent on to it
-- is a first part of the file, and when ftps stops it is the part of as many bytes as the file's
-- length, cut below its lowest zero byte. This is so if no packet comes more than 44 behind or 64 or
-- more ahead of the block that is waited for, a packet changes on its way in nothing but two
-- neighbouring bytes behind its checksum, acknowledgements are for blocks sent and less than 64
-- behind the last one taken, the memory of the driver's buffer was zero at first, and no round
-- accessed memory outside it.
pub Session-writes :
    (file name : List ℕ) (time_of : List ℕ → Timeval) (w : Driver) (v : Window) (s b : ℕ)
    (net : List (ℕ × Sent)) (sent : List Block)
    → length file < 2 ^ 31
    → AreSolid (carried_file file name)
    → Session time_of (transfer file name) w v s b net sent
    → IsStart (receive_file sent) (finished (take (below_zero_byte (length file)) file))
unfolding IsAlong
Session-writes file name time_of w v s b net sent small solid run =
    go sent (subst (λ l. IsAlong l (carried_file file name)) (sym in_order) along)
  where
    in_order : sent ≡ blocks_from (transfer file name) 0 (length sent)
    in_order =
        Session-in_order (transfer file name) time_of (length-carried_file file name)
          (λ j. get_or-IsSolid (carried_file file name) j solid) w v s b net sent run

    along : IsAlong (blocks_from (transfer file name) 0 (length sent)) (carried_file file name)
    along =
        blocks_from-IsAlong (transfer file name) (replicate buff_size 1) (carried_file file name)
          (length sent) 0 (λ k. ap (transfer file name) {x = 0 + k} {y = k} (omega arith))

    all_written :
        receive_file (carried_file file name) ≡ finished (take (below_zero_byte (length file)) file)
    all_written = receive_file-carried_file file name small

    go :
        (sent : List Block)
        → IsAlong sent (carried_file file name)
        → IsStart (receive_file sent) (finished (take (below_zero_byte (length file)) file))
    go sent (inl (more, e)) =
        subst (IsStart (receive_file sent)) (ap receive_file e ∙ all_written)
          (receive_file-IsStart sent more)
    go sent (inr (more, e)) =
        subst (λ o. IsStart o (finished (take (below_zero_byte (length file)) file)))
          (sym (
            subst (λ o. IsStart o (receive_file sent)) all_written
              (subst (λ l. IsStart (receive_file (carried_file file name)) (receive_file l)) e
                (receive_file-IsStart (carried_file file name) more))))
          refl
