-- ===== src/Driver/Timeouts.antt =====
-- The timeouts of the frames, over the rounds of the driver.
use osu_cse.Base.{ℕ, ◌*◌, ◌^◌, ◌≤◌, ◌<◌, ◌≡◌, refl, arith, inl, inr, Bool-cases, ◌⊎◌, ltb}
use osu_cse.Base.{List, [], ◌∷◌, ◌++◌, Option, none, some}
use osu_cse.Base.Int.{pos, pos_part, ◌+ℤ◌}
use osu_cse.Buffer.{Block, slots}
use osu_cse.Timeval.{Timeval, calculate_rtt}
use osu_cse.Rtt.{tcp_rto_min, tcp_rtt_estimator}
use osu_cse.Rtt.Samples.{IsEstimate, estimator-IsEstimate, set_rto_bounds}
use osu_cse.Crc.{crc_init}
use osu_cse.Message.{read_resend}
use osu_cse.Ack.{open_ack}
use osu_cse.Driver.{
  Driver, Sent, unsent, transmit, resend, has_room, take_block, scanned, scan_acked, handle_ack,
  may_send, send_next,
}
use osu_cse.Driver.Rounds.{
  Ready, RoundOutcome, went_on, crashed, handle_resend, on_request, on_block, after_ack, opened,
  on_ack, sent_last, more, then_on, round, run,
}

module _ (top : ℕ) where
  abbrev pub AreTimed : List Sent → Type 0
  AreTimed [] = Unit
  AreTimed (frame ∷ frames) =
      (tcp_rto_min ≤ frame.timeout) × (frame.timeout ≤ 5 * top) × AreTimed frames

  -- All frames that went out.
  abbrev pub IsInTime : RoundOutcome → Type 0
  IsInTime crashed = Unit
  IsInTime (went_on w frames ids) = AreTimed frames

  -- The acknowledgement, if it is one, comes within `top` microseconds.
  abbrev pub IsQuick : (List ℕ → Timeval) → Timeval → Option (ℕ × List ℕ) → Type 0
  IsQuick time_of now none = Unit
  IsQuick time_of now (some (ack, stamp)) = calculate_rtt now (time_of stamp) ≤ top

  abbrev pub IsQuickAck : (List ℕ → Timeval) → Timeval → Option (List ℕ) → Type 0
  IsQuickAck time_of now none = Unit
  IsQuickAck time_of now (some ackbuf) = IsQuick time_of now (open_ack crc_init ackbuf)

  abbrev pub AreQuick : (List ℕ → Timeval) → List Ready → Type 0
  AreQuick time_of [] = Unit
  AreQuick time_of (r ∷ rounds) = IsQuickAck time_of r.now r.ack × AreQuick time_of rounds

module _ (top : ℕ) (low : 500 ≤ top) (high : top < 2 ^ 28) where
  record IsTimed (w : Driver) : Type 0 where
    sample : w.rtt ≤ top
    estimated : (w.tp.srtt ≡ 0) ⊎ IsEstimate top w.tp

  abbrev Keeps : RoundOutcome → Type 0
  Keeps crashed = Unit
  Keeps (went_on w frames ids) = IsTimed w × AreTimed top frames

  transmit-Keeps :
      (w : Driver) (k : ℕ) → IsTimed w → Keeps (went_on (transmit w k).0 ((transmit w k).1 ∷ []) [])
  unfolding transmit
  transmit-Keeps w k h =
      let e = estimator-IsEstimate top low high w.tp w.rtt h.sample h.estimated in
      let bounds = set_rto_bounds top low high (tcp_rtt_estimator w.tp w.rtt) e in
      (record { sample = h.sample; estimated = inr e }, (bounds.0, bounds.1, tt))

  request-Keeps :
      (w : Driver) (request : Option (List ℕ)) → IsTimed w → Keeps (on_request w request)
  unfolding on_request
  request-Keeps w none h = (h, tt)
  request-Keeps w (some bufin) h = go (read_resend bufin)
    where
      go : (id : Option ℕ) → Keeps (handle_resend w id)
      go none = (h, tt)
      go (some id) =
          unfold resend in
          elim (Bool-cases (ltb id slots)) [
            | inl inside ↦ rw inside (transmit-Keeps w id h)
            | inr outside ↦ rw outside tt
          ]

  block-IsTimed : (w : Driver) (block : Option Block) → IsTimed w → IsTimed (on_block w block)
  unfolding on_block take_block
  block-IsTimed w none h = h
  block-IsTimed w (some block) h = elim (Bool-cases (has_room w)) [
    | inl room ↦ rw room (record { sample = h.sample; estimated = h.estimated })
    | inr filled ↦ rw filled h
  ]

  scanned-Keeps :
      (w : Driver) (ack : ℕ) (o : Option ℕ) → IsTimed w → Keeps (after_ack ack (scanned w o))
  unfolding scanned
  scanned-Keeps w ack none h = tt
  scanned-Keeps w ack (some i) h = (record { sample = h.sample; estimated = h.estimated }, tt)

  ack-Keeps :
      (w : Driver) (ack : ℕ) (now then_ : Timeval)
      → calculate_rtt now then_ ≤ top
      → IsTimed w
      → Keeps (after_ack ack (handle_ack w ack now then_))
  unfolding handle_ack scan_acked
  ack-Keeps w ack now then_ quick h = elim (Bool-cases (ltb ack slots)) [
    | inl inside ↦
        rw inside (scanned-Keeps _ ack _ (record { sample = quick; estimated = h.estimated }))
    | inr outside ↦ rw outside tt
  ]

  on_ack-Keeps :
      (time_of : List ℕ → Timeval) (now : Timeval) (w : Driver) (ackbuf : Option (List ℕ))
      → IsQuickAck top time_of now ackbuf
      → IsTimed w
      → Keeps (on_ack time_of now w ackbuf)
  unfolding on_ack
  on_ack-Keeps time_of now w none quick h = (h, tt)
  on_ack-Keeps time_of now w (some ackbuf) quick h = go (open_ack crc_init ackbuf) quick
    where
      go : (o : Option (ℕ × List ℕ)) → IsQuick top time_of now o → Keeps (opened time_of now w o)
      go none quick = (h, tt)
      go (some (ack, stamp)) quick = ack-Keeps w ack now (time_of stamp) quick h

  sent_last-Keeps : (w : Driver) → IsTimed w → Keeps (sent_last (send_next w))
  unfolding send_next
  sent_last-Keeps w h = elim (Bool-cases (may_send w)) [
    | inl free ↦
        let (h', timed) = transmit-Keeps w (pos_part (w.lfs +ℤ pos 1)) h in
        rw free (record { sample = h'.sample; estimated = h'.estimated }, timed)
    | inr held ↦ rw held (h, tt)
  ]

  AreTimed-append :
      (xs ys : List Sent) → AreTimed top xs → AreTimed top ys → AreTimed top (xs ++ ys)
  AreTimed-append [] ys h k = k
  AreTimed-append (x ∷ xs) ys h k = (h.0, h.1, AreTimed-append xs ys h.2 k)

  then_on-Keeps :
      (o : RoundOutcome) (rest : Driver → RoundOutcome)
      → Keeps o
      → ((w : Driver) → IsTimed w → Keeps (rest w))
      → Keeps (then_on o rest)
  then_on-Keeps crashed rest h k = tt
  then_on-Keeps (went_on w frames ids) rest h k = go (rest w) (k w h.0)
    where
      go : (o : RoundOutcome) → Keeps o → Keeps (more frames ids o)
      go crashed h' = tt
      go (went_on w' frames' ids') h' = (h'.0, AreTimed-append frames frames' h.1 h'.1)

  round-Keeps :
      (time_of : List ℕ → Timeval) (w : Driver) (r : Ready)
      → IsQuickAck top time_of r.now r.ack
      → IsTimed w
      → Keeps (round time_of w r)
  unfolding round
  round-Keeps time_of w r quick h =
      then_on-Keeps (on_request w r.request) _ (request-Keeps w r.request h) (λ w' h'.
        then_on-Keeps (on_ack time_of r.now (on_block w' r.block) r.ack) _
          (on_ack-Keeps time_of r.now (on_block w' r.block) r.ack quick
            (block-IsTimed w' r.block h'))
          (λ w'' h''. sent_last-Keeps w'' h''))

  run-Keeps :
      (time_of : List ℕ → Timeval) (rounds : List Ready) (w : Driver)
      → AreQuick top time_of rounds
      → IsTimed w
      → Keeps (run time_of w rounds)
  unfolding run
  run-Keeps time_of [] w quick h = (h, tt)
  run-Keeps time_of (r ∷ rounds) w quick h =
      then_on-Keeps (round time_of w r) _ (round-Keeps time_of w r quick.0 h)
        (λ w' h'. run-Keeps time_of rounds w' quick.1 h')

  -- If every acknowledgement comes within `top` microseconds of its frame, with `top` from 500 to
  -- 2 ^ 28 - 1, then over any rounds of the driver from its start every frame that it sends, or sends
  -- again, has a timeout of TCP_RTO_MIN at least and of five times `top` at most.
  pub run-IsInTime :
      (time_of : List ℕ → Timeval) (rounds : List Ready)
      → AreQuick top time_of rounds
      → IsInTime top (run time_of unsent rounds)
  run-IsInTime time_of rounds quick =
      go (run time_of unsent rounds) (run-Keeps time_of rounds unsent quick start)
    where
      start : IsTimed unsent
      start = record { sample = omega arith; estimated = inl refl }

      go : (o : RoundOutcome) → Keeps o → IsInTime top o
      go crashed h = tt
      go (went_on w frames ids) h = h.1
