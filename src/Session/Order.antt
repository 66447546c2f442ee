-- ===== src/Session/Order.antt =====
-- What comes out of a session is what went in.
use osu_cse.Base.{ℕ, ◌+◌, ◌≤◌, ◌≡◌, refl, sym, ap, ◌∙◌, arith, inl, false}
use osu_cse.Base.{List, [], ◌∷◌, ◌++◌, length}
use osu_cse.Base.Int.{◌-ℤ◌}
use mathlib.Core.Path.{subst}
use mathlib.Core.List.{Memᴰ}
use mathlib.Core.List.Memᴰ.{head, tail}
use osu_cse.Timeval.{Timeval}
use osu_cse.Buffer.{Block, buff_size, slots, check_empty}
use osu_cse.Buffer.Stores.{blank_empty, slot-replicate}
use osu_cse.Receiver.{Window}
use osu_cse.Receiver.Row.{blocks_from}
use osu_cse.Packet.Traffic.{Traffic, quiet, sealed_comes, garbled_comes, Traffic-in_order}
use osu_cse.Receiver.Contents.{IsBody}
use osu_cse.Driver.{Driver, Sent, unsent}
use osu_cse.Driver.Rounds.{on_block}
use osu_cse.Driver.Places.{IsHeld}
use osu_cse.Buffer.Stores.{length-blank}
use osu_cse.Driver.Marks.{
  IsFrame, AreFrames, IsSending, IsAfter, IsResent, IsCleared, IsSentOn, taken_after,
  requested_block,
}
use osu_cse.Driver.Requests.{on_request-IsAfter}
use osu_cse.Driver.Phases.{on_block-IsSending, on_ack-IsAfter, sent_last-IsAfter}
use osu_cse.Session.{numbered, Session, opened, round_over, packet_comes, noise_comes}

module _ (f : ℕ → Block) where
  abbrev AreNumbered : List (ℕ × Sent) → Type 0
  AreNumbered [] = Unit
  AreNumbered ((j, frame) ∷ net) = IsFrame f j frame × AreNumbered net

  AreNumbered-append :
      (xs ys : List (ℕ × Sent)) → AreNumbered xs → AreNumbered ys → AreNumbered (xs ++ ys)
  AreNumbered-append [] ys h h' = h'
  AreNumbered-append ((j, frame) ∷ xs) ys h h' = (h.0, AreNumbered-append xs ys h.1 h')

  AreNumbered-numbered :
      (j : ℕ) (frames : List Sent) → AreFrames f j frames → AreNumbered (numbered j frames)
  AreNumbered-numbered j [] h = tt
  AreNumbered-numbered j (frame ∷ frames) h = (h.0, AreNumbered-numbered j frames h.1)

  IsFrame-member :
      (x : ℕ × Sent) (net : List (ℕ × Sent)) → Memᴰ x net → AreNumbered net → IsFrame f x.0 x.1
  IsFrame-member x _ (head {x = y} {xs} e) h = subst (λ z. IsFrame f z.0 z.1) (sym e) h.0
  IsFrame-member x _ (tail {x = y} {xs} m) h = IsFrame-member x xs m h.1

  -- The two sides of a session.
  pub record IsJoined (w : Driver) (v : Window) (s b : ℕ) (net : List (ℕ × Sent))
      (sent : List Block) : Type 0 where
    pub acked : ℕ
    pub sending : IsSending f w acked s b
    pub held : IsHeld acked s b
    pub frames : AreNumbered net
    pub traffic : Traffic f v sent

  pub unsent-IsSending : IsSending f unsent 0 0 0
  unfolding ◌-ℤ◌
  unsent-IsSending = record {
    count = record {
      below_end = omega arith;
      acked = omega arith;
      ahead = omega arith;
      taken = omega arith;
      room = omega arith;
      wait = omega arith;
    };
    placed = record { lar = refl; lfs = refl; bufpos = refl };
    filled = record {
      all = (refl, λ i h. ap length (slot-replicate slots i h) ∙ length-blank);
      blocks = λ j below near. absurd (omega arith);
      fresh = λ j above h. ap check_empty (slot-replicate slots j h) ∙ blank_empty;
    };
    passed = λ j below near. absurd (omega arith);
  }

  IsJoined-round :
      (after : Driver) (v : Window) (a s b i : ℕ) (net : List (ℕ × Sent)) (sent : List Block)
      (again next : List Sent)
      → IsSentOn f a s b after next
      → AreNumbered net
      → AreFrames f i again
      → Traffic f v sent
      → IsJoined after v (s + length next) b (net ++ (numbered i again ++ numbered s next)) sent
  IsJoined-round after v a s b i net sent again next (h, held, fresh) frames old traffic = record {
    acked = a;
    sending = h;
    held = held;
    frames = AreNumbered-append net (numbered i again ++ numbered s next) frames (
        AreNumbered-append (numbered i again) (numbered s next) (AreNumbered-numbered i again old)
          (AreNumbered-numbered s next fresh));
    traffic = traffic;
  }

  module _ (time_of : List ℕ → Timeval) (full : (j : ℕ) → length (f j) ≡ buff_size)
      (solid : (j : ℕ) → check_empty (f j) ≡ false) where
    pub session-IsJoined :
        (w : Driver) (v : Window) (s b : ℕ) (net : List (ℕ × Sent)) (sent : List Block)
        → Session time_of f w v s b net sent
        → IsJoined w v s b net sent
    session-IsJoined _ _ _ _ _ _ opened = record {
      acked = 0;
      sending = unsent-IsSending;
      held = inl (omega arith);
      frames = tt;
      traffic = quiet;
    }
    session-IsJoined _ _ _ _ _ _
          (round_over w w' w'' after v s b j r net sent again during next ids ids' ids'' before
            block answer e e' e'') =
        let joined = session-IsJoined w v s b net sent before in
        let b' : ℕ = taken_after w' r.block b in
        let (h', old) =
          subst (IsAfter (IsResent f joined.acked s b (requested_block b r.request))) e
            (on_request-IsAfter f w joined.acked s b r.request joined.sending) in
        let ((a, h''), none_during) = subst (IsAfter (IsCleared f s b')) e' (
          on_ack-IsAfter f time_of r.now (on_block w' r.block) joined.acked s b' j r.ack solid
            (on_block-IsSending f w' joined.acked s b r.block full h' joined.held block) answer) in
        IsJoined-round after v a s b' (requested_block b r.request) net sent again next
          (subst (IsAfter (IsSentOn f a s b')) e'' (sent_last-IsAfter f w'' a s b' h''))
          joined.frames old joined.traffic
    session-IsJoined _ _ _ _ _ _
          (packet_comes w v v' s b j net sent more frame p before sent_before well number body late
            early taken) =
        let joined = session-IsJoined w v s b net sent before in
        let of = IsFrame-member (j, frame) net sent_before joined.frames in
        record {
          acked = joined.acked;
          sending = joined.sending;
          held = joined.held;
          frames = joined.frames;
          traffic =
              sealed_comes v v' sent more j p joined.traffic well (number ∙ of.seq)
                (subst (IsBody f j) (sym body) of.body) late early taken;
        }
    session-IsJoined _ _ _ _ _ _ (noise_comes w v v' s b net sent more message before bad taken) =
        let joined = session-IsJoined w v s b net sent before in
        record {
          acked = joined.acked;
          sending = joined.sending;
          held = joined.held;
          frames = joined.frames;
          traffic = garbled_comes v v' sent more message joined.traffic bad taken;
        }

    -- In every session, whatever is lost, repeated or late and whatever the timer asks for, for a file
    -- of full blocks none of which is zero: what the server sent on to ftps are the blocks of the file from
    -- the first one, in order, without a gap or a repeat. This is so if no packet comes more than 44
    -- behind or 64 or more ahead of the block that is waited for, a packet changes on its way in nothing
    -- but two neighbouring bytes behind its checksum, acknowledgements are for blocks sent
    -- and less than 64 behind the last one taken, the memory of the driver's buffer was zero at first,
    -- and no round accessed memory outside it.
    pub Session-in_order :
        (w : Driver) (v : Window) (s b : ℕ) (net : List (ℕ × Sent)) (sent : List Block)
        → Session time_of f w v s b net sent
        → sent ≡ blocks_from f 0 (length sent)
    Session-in_order w v s b net sent run =
        Traffic-in_order f full v sent (session-IsJoined w v s b net sent run).traffic

    -- For a file of full blocks none of which is zero: as long as no round accessed memory outside its
    -- buffer, the driver has sent no more than 84 of the blocks, not counting those that it sent
    -- again. This is so if no packet comes more than 44 behind or 64 or more ahead of the block that
    -- is waited for, acknowledgements are for blocks sent and less than 64 behind the last one taken,
    -- and the memory of the buffer was zero at first.
    pub Session-at_most :
        (w : Driver) (v : Window) (s b : ℕ) (net : List (ℕ × Sent)) (sent : List Block)
        → Session time_of f w v s b net sent
        → s ≤ 84
    Session-at_most w v s b net sent run =
        let joined = session-IsJoined w v s b net sent run in
        omega (arith, joined.sending.count.ahead, joined.sending.count.below_end)
