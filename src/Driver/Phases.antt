-- ===== src/Driver/Phases.antt =====
-- What the other parts of a round of the driver do while its buffer holds blocks of a file.
use osu_cse.Base.{ℕ, suc, ◌+◌, ◌%◌, ◌≤◌, ◌<◌, ◌≡◌, refl, sym, ap, ◌∙◌, arith}
use osu_cse.Base.{true, false, inl, inr, Bool-cases, ◌==◌, Option, some, none, if◌then◌else◌}
use osu_cse.Base.{List, length, set}
use osu_cse.Base.Int.{int_laws, parts_apart, pos, pos_part, ◌-ℤ◌, ◌+ℤ◌, ◌≤ℤ◌}
use mathlib.Core.Path.{subst}
use osu_cse.Buffer.{Block, buff_size, slots, slot, check_empty, overlay, clear, blank}
use osu_cse.Buffer.Stores.{overlay_whole, overlay-empty, blank_empty}
use osu_cse.Base.{[], get_or-set_ne, ltb, ◌-◌}
use osu_cse.Driver.Filled.{slot-set_or}
use osu_cse.Timeval.{Timeval}
use osu_cse.Crc.{crc_init}
use osu_cse.Ack.{open_ack}
use osu_cse.Driver.{
  Driver, AckOutcome, acked, overrun, transmit, has_room, take_block, handle_ack, may_send,
  next_lfs, send_next,
}
use osu_cse.Driver.Rounds.{on_block, after_ack, opened, on_ack, sent_last}
use osu_cse.Driver.Acks.{taken_out}
use osu_cse.Driver.Scans.{IsAcked, handle_ack-IsAcked}
use osu_cse.Driver.Places.{
  IsHeld, has_room-lt, may_send-lt, may_send-IsHeld, next_lfs_count, next_bufpos, lfs-frame,
}
use osu_cse.Driver.Filled.{
  IsFilled, IsFilled-taken, IsFilled-acked, IsFilled-sent, IsFilled-next, stop-le,
}
use osu_cse.Driver.Marks.{
  IsFrame, IsSending, IsAfter, IsRecent, IsNumbered, IsAnswer, IsNextBlock, taken_after, IsCleared,
  IsSentOn,
}

module _ (f : ℕ → Block) where
  pub on_block-IsSending :
      (w : Driver) (a s b : ℕ) (block : Option Block)
      → ((j : ℕ) → length (f j) ≡ buff_size)
      → IsSending f w a s b
      → IsHeld a s b
      → IsNextBlock f b block
      → IsSending f (on_block w block) a s (taken_after w block b)
  unfolding on_block take_block
  on_block-IsSending w a s b none full h held next = h
  on_block-IsSending w a s b (some block) full h held next = elim (Bool-cases (has_room w)) [
    | inr filled ↦ rw filled h
    | inl room ↦ rw room (record {
      count = record {
        below_end = h.count.below_end;
        acked = h.count.acked;
        ahead = h.count.ahead;
        taken = omega (arith, h.count.taken);
        room = omega (arith, has_room-lt w a s b h.placed h.count held room);
        wait = few room held;
      };
      placed = record {
        lar = h.placed.lar;
        lfs = h.placed.lfs;
        bufpos = ap (λ p. if p + 1 == slots then 0 else p + 1) h.placed.bufpos ∙ next_bufpos b;
      };
      filled =
          subst (λ p. IsFilled f (set w.sendbuf p (overlay block (slot w.sendbuf p))) s (suc b))
            (sym h.placed.bufpos)
            (subst (λ x. IsFilled f (set w.sendbuf (b % slots) x) s (suc b)) (sym (stands room))
              (IsFilled-taken f w.sendbuf s b (full b) h.count.taken h.filled));
      passed = λ j below near.
          ap check_empty (
            get_or-set_ne w.sendbuf w.bufpos j _ []
              (λ e. omega (arith, e, h.placed.bufpos, h.count.acked, h.count.taken)))
          ∙ h.passed j below (omega arith);
    })
  ]
    where
      -- Every slot that the next block may come into is empty.
      free : has_room w ≡ true → check_empty (slot w.sendbuf (b % slots)) ≡ true
      free room = elim (Bool-cases (ltb b slots)) [
        | inl early ↦
            ap (λ k. check_empty (slot w.sendbuf k)) {x = b % slots} {y = b} (first_round early)
            ∙ h.filled.fresh b (omega arith) (below early)
        | inr late ↦
            ap (λ k. check_empty (slot w.sendbuf k)) {x = b % slots} {y = b - slots}
              (again room late)
            ∙ h.passed (b - slots) (acked_there room late) (omega (arith, above late))
      ]
        where
          below : ltb b slots ≡ true → b < slots
          below e = ground arith

          above : ltb b slots ≡ false → slots ≤ b
          above e = ground arith

          first_round : ltb b slots ≡ true → b % slots ≡ b
          first_round e = omega (arith, below e)

          acked_there : has_room w ≡ true → ltb b slots ≡ false → b - slots < a
          acked_there room e =
              omega (arith, above e, has_room-lt w a s b h.placed h.count held room)

          again : has_room w ≡ true → ltb b slots ≡ false → b % slots ≡ b - slots
          again room e = omega (arith, above e, acked_there room e, h.count.below_end)

      stands :
          has_room w ≡ true
          → overlay block (slot w.sendbuf (b % slots)) ≡ overlay (f b) (slot w.sendbuf (b % slots))
      stands room =
          overlay-empty block (slot w.sendbuf (b % slots)) (free room)
            (h.filled.all.1 (b % slots) (omega arith))
          ∙ next
          ∙ sym (
              overlay_whole (f b) (slot w.sendbuf (b % slots))
                (omega (arith, full b, h.filled.all.1 (b % slots) (omega arith))))

      few : has_room w ≡ true → IsHeld a s b → suc b ≤ s + 46
      few room (inl less) = omega (arith, less)
      few room (inr all) =
          absurd (omega (arith, all, has_room-lt w a s b h.placed h.count held room))

  -- An acknowledgement that did not lead outside the buffer.
  acked-IsCleared :
      (w : Driver) (a s b j ack : ℕ) (now then_ : Timeval) (o : AckOutcome)
      → ((j : ℕ) → check_empty (f j) ≡ false)
      → IsSending f w a s b
      → IsRecent s b j ack
      → IsAcked w ack now then_ o
      → IsAfter (IsCleared f s b) (after_ack ack o)
  acked-IsCleared w a s b j ack now then_ overrun solid h recent v = tt
  acked-IsCleared w a s b j ack now then_ (acked w') solid h (number, sent, recent)
        (t, same, small, stop) =
      (
        (
          t,
          subst (λ x. IsSending f x t s b) (sym same)
              (record {
                count = record {
                  below_end = omega (arith, stop.1);
                  acked = upto;
                  ahead = omega (arith, h.count.ahead, from);
                  taken = h.count.taken;
                  room = omega (arith, h.count.room, from);
                  wait = h.count.wait;
                };
                placed = record { lar = refl; lfs = h.placed.lfs; bufpos = h.placed.bufpos };
                filled = left;
                passed = λ i below near. elim (Bool-cases (ltb i a)) [
                  | inr newer ↦ stop.2 i (omega (arith, start, is_newer i newer)) below
                  | inl older ↦ cleared i (h.passed i (is_older i older) near)
                ];
              }),
        ),
        refl,
      )
    where
      is_newer : (i : ℕ) → ltb i a ≡ false → a ≤ i
      is_newer i e = ground arith

      is_older : (i : ℕ) → ltb i a ≡ true → i < a
      is_older i e = ground arith

      cleared :
          (i : ℕ)
          → check_empty (slot w.sendbuf i) ≡ true
          → check_empty (slot (clear w.sendbuf ack 1) i) ≡ true
      cleared i gone =
          unfold clear in
          elim (slot-set_or w.sendbuf ack i blank) [
            | inl new ↦ ap check_empty new ∙ blank_empty
            | inr old ↦ ap check_empty old ∙ gone
          ]

      start : pos_part (w.lar +ℤ pos 1) ≡ a
      start = ap (λ l. pos_part (l +ℤ pos 1)) h.placed.lar ∙ back a
        where
          back : (n : ℕ) → pos_part (pos n -ℤ pos 1 +ℤ pos 1) ≡ n
          back n = omega (int_laws, parts_apart (pos n -ℤ pos 1 +ℤ pos 1))

      from : a ≤ t
      from = omega (arith, start, stop.0)

      left : IsFilled f (clear w.sendbuf ack 1) s b
      left =
          subst (λ k. IsFilled f (clear w.sendbuf k 1) s b) (sym number)
            (unfold clear in
              IsFilled-acked f w.sendbuf s b j h.count.taken sent (omega arith) h.filled)

      upto : t ≤ s
      upto =
          stop-le f (taken_out w ack now then_) (pos_part (w.lar +ℤ pos 1)) s b t solid left
            h.placed.lfs (omega (arith, start, h.count.acked)) h.count.taken
            (omega (arith, h.count.wait)) stop

  pub on_ack-IsAfter :
      (time_of : List ℕ → Timeval) (now : Timeval) (w : Driver) (a s b j : ℕ)
      (ackbuf : Option (List ℕ))
      → ((j : ℕ) → check_empty (f j) ≡ false)
      → IsSending f w a s b
      → IsAnswer s b j ackbuf
      → IsAfter (IsCleared f s b) (on_ack time_of now w ackbuf)
  unfolding on_ack
  on_ack-IsAfter time_of now w a s b j none solid h answer = ((a, h), refl)
  on_ack-IsAfter time_of now w a s b j (some ackbuf) solid h answer =
      go (open_ack crc_init ackbuf) answer
    where
      low : w.lar ≤ℤ pos 63
      low = subst (λ l. l ≤ℤ pos 63) (sym h.placed.lar) (omega (int_laws, h.count.below_end))

      go :
          (o : Option (ℕ × List ℕ))
          → IsNumbered s b j o
          → IsAfter (IsCleared f s b) (opened time_of now w o)
      go none numbered = ((a, h), refl)
      go (some (ack, stamp)) numbered =
          acked-IsCleared w a s b j ack now (time_of stamp) (handle_ack w ack now (time_of stamp))
            solid h numbered (handle_ack-IsAcked w ack now (time_of stamp) low)

  -- The next frame goes out.
  sent-IsSending :
      (w : Driver) (a s b : ℕ)
      → IsSending f w a s b
      → (s < b) × (s ≤ a + 20)
      → IsSending f
          (record (transmit w (pos_part (w.lfs +ℤ pos 1))).0 { lfs = next_lfs w.lfs })
          a
          (suc s)
          b
  unfolding transmit
  sent-IsSending w a s b h (waits, near) = record {
    count = record {
      below_end = h.count.below_end;
      acked = omega (arith, h.count.acked);
      ahead = omega (arith, near);
      taken = omega (arith, waits);
      room = h.count.room;
      wait = omega (arith, h.count.wait);
    };
    placed = record {
      lar = h.placed.lar;
      lfs = ap next_lfs h.placed.lfs ∙ next_lfs_count s;
      bufpos = h.placed.bufpos;
    };
    filled = IsFilled-sent f w.sendbuf s b h.filled;
    passed = h.passed;
  }

  pub sent_last-IsAfter :
      (w : Driver) (a s b : ℕ)
      → IsSending f w a s b
      → IsAfter (IsSentOn f a s b) (sent_last (send_next w))
  unfolding send_next
  sent_last-IsAfter w a s b h = elim (Bool-cases (may_send w)) [
    | inr held ↦ rw held (
      subst (λ n. IsSending f w a n b) (omega arith) h,
      subst (λ n. IsHeld a n b) (omega arith) (may_send-IsHeld w a s b h.placed h.count held),
      tt,
    )
    | inl free ↦ rw free (
      subst
          (λ n.
            IsSending f (record (transmit w (pos_part (w.lfs +ℤ pos 1))).0 { lfs = next_lfs w.lfs })
              a n b)
          (omega arith) (sent-IsSending w a s b h (may_send-lt w a s b h.placed h.count free)),
      inl (omega (arith, h.count.wait)),
      (
        subst (λ k. IsFrame f s (transmit w k).1) (sym number)
            (next_frame (may_send-lt w a s b h.placed h.count free).0),
        tt,
      ),
    )
  ]
    where
      number : pos_part (w.lfs +ℤ pos 1) ≡ s % slots
      number = ap (λ l. pos_part (l +ℤ pos 1)) h.placed.lfs ∙ lfs-frame s

      next_frame : s < b → IsFrame f s (transmit w (s % slots)).1
      next_frame waits =
          unfold transmit in
          record {
            seq = refl;
            body = (
              h.filled.all.1 (s % slots) (omega arith),
              inr (IsFilled-next f w.sendbuf s b h.filled waits (omega (arith, h.count.wait))),
            );
          }
