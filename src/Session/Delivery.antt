-- ===== src/Session/Delivery.antt =====
-- Sessions in which nothing is lost.
use osu_cse.Base.{ℕ, zero, suc, ◌+◌, ◌%◌, ◌≤◌, ◌<◌, ◌≡◌, refl, sym, ap, ◌∙◌, arith, inl, inr, ◌⊎◌}
use osu_cse.Base.{true, false, Bool-cases, leb}
use osu_cse.Base.{List, [], ◌∷◌, ◌++◌, length, length-append, none, some}
use osu_cse.Base.Int.{pos, pos_part, ◌+ℤ◌}
use mathlib.Core.Path.{subst}
use mathlib.Core.List.Memᴰ.{head, append_right}
use osu_cse.Timeval.{Timeval}
use osu_cse.Crc.Reference.{IsBytes}
use osu_cse.Buffer.{Block, buff_size, slots, slot, check_empty, blank}
use osu_cse.Buffer.Stores.{overlay_whole, length-blank}
use osu_cse.Receiver.{Window, done, first, initial, accept}
use osu_cse.Base.{◌-◌}
use osu_cse.Receiver.Row.{blocks_from, blocks_from-append}
use osu_cse.Receiver.Order.{arrivals-IsWaiting}
use osu_cse.Receiver.Progress.{arrivals_go_on}
use osu_cse.Packet.Sealing.{serve-seal}
use osu_cse.Packet.Traffic.{traffic-Arrivals}
use osu_cse.Driver.{Driver, Sent, unsent, transmit, send_next}
use osu_cse.Driver.Rounds.{Ready, went_on, on_request, on_block, on_ack, sent_last}
use osu_cse.Driver.Places.{lfs-frame}
use osu_cse.Driver.Filled.{IsFilled-next}
use osu_cse.Driver.Marks.{IsSending, IsSentOn, IsAfter, taken_after}
use osu_cse.Driver.Phases.{on_block-IsSending, sent_last-IsAfter}
use osu_cse.Session.{Session, opened, round_over, packet_comes}
use osu_cse.Session.Order.{unsent-IsSending, session-IsJoined, Session-in_order}
use osu_cse.Session.Early.{has_room-early, may_send-early, plain, plain-IsPacket, within}

module _ (f : ℕ → Block) (time_of : List ℕ → Timeval) (now : Timeval)
    (full : (j : ℕ) → length (f j) ≡ buff_size) (solid : (j : ℕ) → check_empty (f j) ≡ false)
    (bytes : (j : ℕ) → IsBytes (f j)) where
  -- `k` blocks are sent, and as many at least were sent on.
  record IsDelivered (k : ℕ) : Type 0 where
    driver : Driver
    server : Window
    net : List (ℕ × Sent)
    sent : List Block
    sending : IsSending f driver 0 k k
    run : Session time_of f driver server k k net sent
    far : k ≤ length sent
    open_end : (first server < slots) ⊎ (slots ≤ length sent)

  -- The driver has taken block `k`, and sends it.
  module _ (w : Driver) (k : ℕ) (h : IsSending f w 0 k k) (few : k < 20) where
    abbrev loaded : Driver
    loaded = on_block w (some (f k))

    abbrev frame : Sent
    frame = (transmit loaded (pos_part (loaded.lfs +ℤ pos 1))).1

    one_taken : taken_after w (some (f k)) k ≡ suc k
    one_taken = rw (has_room-early w k h.placed few) refl

    loaded-IsSending : IsSending f loaded 0 k (suc k)
    loaded-IsSending = subst (IsSending f loaded 0 k) one_taken (
        on_block-IsSending f w 0 k k (some (f k)) full h (inl (omega arith))
          (overlay_whole (f k) blank (omega (arith, full k, length-blank))))

    sends_on : sent_last (send_next loaded) ≡ went_on (send_next loaded).0 (frame ∷ []) []
    unfolding send_next
    sends_on = rw (may_send-early loaded k loaded-IsSending.placed few) refl

    frame_number : pos_part (loaded.lfs +ℤ pos 1) ≡ k % slots
    frame_number = ap (λ l. pos_part (l +ℤ pos 1)) loaded-IsSending.placed.lfs ∙ lfs-frame k

    frame_seq : k % slots ≡ frame.seq
    unfolding transmit
    frame_seq = sym frame_number

    frame_body : f k ≡ frame.body
    unfolding transmit
    frame_body = sym (
        ap (slot loaded.sendbuf) frame_number
        ∙ IsFilled-next f loaded.sendbuf k (suc k) loaded-IsSending.filled (omega arith)
            (omega arith))

    after-IsSending : IsSending f (send_next loaded).0 0 (suc k) (suc k)
    after-IsSending =
        subst (λ n. IsSending f (send_next loaded).0 0 n (suc k)) (omega arith)
          (subst (IsAfter (IsSentOn f 0 k (suc k))) sends_on
            (sent_last-IsAfter f loaded 0 k (suc k) loaded-IsSending)).0

    abbrev ready : Ready
    ready = record { request = none; block = some (f k); ack = none; now = now }

    session-round :
        (v : Window) (net : List (ℕ × Sent)) (sent : List Block)
        → Session time_of f w v k k net sent
        → Session time_of f (send_next loaded).0 v (suc k) (suc k) (net ++ ((k, frame) ∷ [])) sent
    unfolding on_request on_ack
    session-round v net sent run =
        subst
          (λ n. Session time_of f (send_next loaded).0 v n (suc k) (net ++ ((k, frame) ∷ [])) sent)
          (omega arith)
          (subst
            (λ n.
              Session time_of f (send_next loaded).0 v (k + 1) n (net ++ ((k, frame) ∷ [])) sent)
            one_taken
            (round_over w w loaded (send_next loaded).0 v k k 0 ready net sent [] [] (frame ∷ []) []
              [] [] run (overlay_whole (f k) blank (omega (arith, full k, length-blank))) tt refl
              refl sends_on))

  -- The server takes the packet with the block that it waits for.
  packet-IsDelivered :
      (k : ℕ) (w : Driver) (v : Window) (net : List (ℕ × Sent)) (sent : List Block) (frame : Sent)
      → IsSending f w 0 (suc k) (suc k)
      → Session time_of f w v (suc k) (suc k) (net ++ ((k, frame) ∷ [])) sent
      → k % slots ≡ frame.seq
      → f k ≡ frame.body
      → length sent ≡ k
      → first v < slots
      → IsDelivered (suc k)
  packet-IsDelivered k w v net sent frame sending run seq body exact inside =
      let arrivals =
        traffic-Arrivals f v sent
          (session-IsJoined f time_of full solid w v (suc k) (suc k) (net ++ ((k, frame) ∷ [])) sent
            run).traffic in
      let (v', more, taken, (rest, sent_first)) =
        arrivals_go_on f full v sent arrivals inside (solid (length sent)) in
      let one : 1 ≤ length more = omega (arith, ap length sent_first) in
      let run' =
        packet_comes w v v' (suc k) (suc k) k (net ++ ((k, frame) ∷ [])) sent more frame (plain f k)
          run (append_right net (head refl)) (plain-IsPacket f k (bytes k)) seq body
          (omega (arith, exact)) (omega (arith, exact))
          (serve-seal v (plain f k) (plain-IsPacket f k (bytes k))
            ∙ subst (λ n. accept v (pos (n % slots)) (f n) (length (f n)) ≡ done v' more) exact
                taken) in
      let waiting =
        (arrivals-IsWaiting f full v' (sent ++ more) (
          traffic-Arrivals f v' (sent ++ more)
            (session-IsJoined f time_of full solid w v' (suc k) (suc k) (net ++ ((k, frame) ∷ []))
              (sent ++ more) run').traffic)).0 in
      let longer : suc k ≤ length (sent ++ more) =
        omega (arith, exact, one, length-append sent more) in
      record {
        driver = w;
        server = v';
        net = net ++ ((k, frame) ∷ []);
        sent = sent ++ more;
        sending = sending;
        run = run';
        far = longer;
        open_end =
            within v' (length (sent ++ more)) waiting.valid waiting.place (omega (arith, longer));
      }

  next-IsDelivered : (k : ℕ) → k < 20 → IsDelivered k → IsDelivered (suc k)
  next-IsDelivered k few d = elim (Bool-cases (leb (suc k) (length d.sent))) [
    | inl enough ↦ record {
      driver = (send_next (loaded d.driver k d.sending few)).0;
      server = d.server;
      net = d.net ++ ((k, frame d.driver k d.sending few) ∷ []);
      sent = d.sent;
      sending = after-IsSending d.driver k d.sending few;
      run = session-round d.driver k d.sending few d.server d.net d.sent d.run;
      far = reached enough;
      open_end = d.open_end;
    }
    | inr waits ↦
        packet-IsDelivered k _ d.server d.net d.sent (frame d.driver k d.sending few)
          (after-IsSending d.driver k d.sending few)
          (session-round d.driver k d.sending few d.server d.net d.sent d.run)
          (frame_seq d.driver k d.sending few) (frame_body d.driver k d.sending few)
          (exactly waits d.far) (inside waits d.open_end)
  ]
    where
      reached : leb (suc k) (length d.sent) ≡ true → suc k ≤ length d.sent
      reached e = ground arith

      exactly : leb (suc k) (length d.sent) ≡ false → k ≤ length d.sent → length d.sent ≡ k
      exactly e far = ground arith

      inside :
          leb (suc k) (length d.sent) ≡ false
          → ((first d.server < slots) ⊎ (slots ≤ length d.sent))
          → first d.server < slots
      inside e (inl less) = less
      inside e (inr closed) = absurd (not_closed e)
        where
          not_closed : leb (suc k) (length d.sent) ≡ false → ⊥
          not_closed e = ground arith

  delivered : (k : ℕ) → k ≤ 20 → IsDelivered k
  delivered zero h = record {
    driver = unsent;
    server = initial;
    net = [];
    sent = [];
    sending = unsent-IsSending f;
    run = opened;
    far = omega arith;
    open_end = inl (first_inside);
  }
    where
      first_inside : first initial < slots
      first_inside = unfold ◌+ℤ◌ in omega arith
  delivered (suc k) h = next-IsDelivered k (omega arith) (delivered k (omega arith))

  -- For a file of full blocks of bytes none of which is zero, and each `k` up to 20: there is a session
  -- in which the driver sends the first `k` blocks and no others, and what the server sends on begins
  -- with these `k` blocks.
  pub Session-delivers :
      (k : ℕ)
      → k ≤ 20
      → (w : Driver) × (v : Window) × (net : List (ℕ × Sent)) × (rest : List Block) × Session
          time_of f w v k k net
          (blocks_from f 0 k ++ rest)
  Session-delivers k h =
      let d = delivered k h in
      let n = length d.sent - k in
      (
        d.driver,
        d.server,
        d.net,
        blocks_from f (0 + k) n,
        subst (Session time_of f d.driver d.server k k d.net)
            (begins d.sent d.far
              (Session-in_order f time_of full solid d.driver d.server k k d.net d.sent d.run))
            d.run,
      )
    where
      begins :
          (sent : List Block)
          → k ≤ length sent
          → sent ≡ blocks_from f 0 (length sent)
          → sent ≡ blocks_from f 0 k ++ blocks_from f (0 + k) (length sent - k)
      begins sent far same =
          same
          ∙ sym (
              blocks_from-append f k (length sent - k) 0
              ∙ ap (blocks_from f 0) {x = k + (length sent - k)} {y = length sent}
                  (omega (arith, far)))
