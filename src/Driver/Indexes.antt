-- ===== src/Driver/Indexes.antt =====
-- The driver's indexes stay in its buffer, whatever comes in.
use osu_cse.Base.{ℕ, zero, suc, ◌+◌, ◌-◌, ◌≤◌, ◌<◌, ◌∙◌, arith}
use osu_cse.Base.{◌==◌, ltb, if◌then◌else◌, inl, inr, Bool-cases}
use osu_cse.Base.{List, [], ◌∷◌, Option, none, some, length-set}
use osu_cse.Base.Int.{ℤ, pos, negsuc, pos_part, ◌+ℤ◌, ◌-ℤ◌, ◌≤ℤ◌, int_laws, parts_apart}
use osu_cse.Buffer.{Block, slots, slot, check_empty}
use osu_cse.Buffer.Runs.{length-clear}
use osu_cse.Timeval.{Timeval}
use osu_cse.Driver.{Driver, Sent, transmit, resend, has_room, take_block}
use osu_cse.Driver.{
  goes_on, scan, scan_front, new_lar, scanned, scan_acked, handle_ack, may_send, send_next,
}
use osu_cse.Driver.Sending.{IsDriver, send_next-outstanding}
use osu_cse.Driver.Rounds.{
  Ready, RoundOutcome, went_on, crashed, resent, handle_resend, on_request, on_block,
}
use osu_cse.Driver.Rounds.{after_ack, opened, on_ack, sent_last, more, then_on, round, run}
use osu_cse.Message.{read_resend}
use osu_cse.Ack.{open_ack}
use osu_cse.Crc.{crc_init}

-- Nothing was accessed outside the buffer, and the indexes are in it, or the driver crashed.
abbrev pub IsSound : RoundOutcome → Type 0
IsSound (went_on w frames ids) = IsDriver w
IsSound crashed = Unit

more-IsSound :
    (frames : List Sent) (ids : List ℕ) (o : RoundOutcome) → IsSound o → IsSound (more frames ids o)
more-IsSound frames ids (went_on w f i) h = h
more-IsSound frames ids crashed h = h

then_on-IsSound :
    (o : RoundOutcome) (rest : Driver → RoundOutcome)
    → IsSound o
    → ((w : Driver) → IsDriver w → IsSound (rest w))
    → IsSound (then_on o rest)
then_on-IsSound (went_on w frames ids) rest h keep = more-IsSound frames ids (rest w) (keep w h)
then_on-IsSound crashed rest h keep = tt

transmit-IsDriver : (w : Driver) (seq : ℕ) → IsDriver w → IsDriver (transmit w seq).0
unfolding transmit
transmit-IsDriver w seq v = record {
  lar_low = v.lar_low;
  lar_high = v.lar_high;
  lfs_low = v.lfs_low;
  lfs_high = v.lfs_high;
  bufpos = v.bufpos;
  sendbuf = v.sendbuf;
}

resend-IsSound : (w : Driver) (id : ℕ) → IsDriver w → IsSound (resent (resend w id))
unfolding resend
resend-IsSound w id v = elim (Bool-cases (ltb id slots)) [
  | inl small ↦ rw small (transmit-IsDriver w id v)
  | inr large ↦ rw large tt
]

on_request-IsSound : (w : Driver) (r : Option (List ℕ)) → IsDriver w → IsSound (on_request w r)
unfolding on_request
on_request-IsSound w none v = v
on_request-IsSound w (some bufin) v = go (read_resend bufin)
  where
    one : (id : ℕ) → IsSound (resent (resend w id))
    one id = resend-IsSound w id v

    go : (id : Option ℕ) → IsSound (handle_resend w id)
    go none = v
    go (some id) = one id

take_block-IsDriver : (w : Driver) (block : Block) → IsDriver w → IsDriver (take_block w block)
unfolding take_block
take_block-IsDriver w block v = elim (Bool-cases (has_room w)) [
  | inl room ↦ rw room (record {
    lar_low = v.lar_low;
    lar_high = v.lar_high;
    lfs_low = v.lfs_low;
    lfs_high = v.lfs_high;
    bufpos = next;
    sendbuf = length-set w.sendbuf w.bufpos _ ∙ v.sendbuf;
  })
  | inr full ↦ rw full v
]
  where
    next : (if w.bufpos + 1 == slots then 0 else w.bufpos + 1) < slots
    next = ground (arith, v.bufpos)

abbrev IsUpTo : Option ℕ → Type 0
IsUpTo none = Unit
IsUpTo (some k) = k ≤ slots

scan-IsUpTo : (w : Driver) (left i : ℕ) → i + left ≤ slots → IsUpTo (scan w left i)
unfolding scan
scan-IsUpTo w zero i h = elim (Bool-cases (goes_on w i)) [
  | inl on ↦ rw on tt
  | inr off ↦ rw off (omega (arith, h))
]
scan-IsUpTo w (suc left) i h = elim (Bool-cases (goes_on w i)) [
  | inr off ↦ rw off (omega (arith, h))
  | inl on ↦ elim (Bool-cases (check_empty (slot w.sendbuf i))) [
    | inl gone ↦ rw (on, gone) (scan-IsUpTo w left (suc i) (omega (arith, h)))
    | inr there ↦ rw (on, there) (omega (arith, h))
  ]
]

scan_front-le : (w : Driver) (left i : ℕ) → scan_front w left i ≤ i + left
unfolding scan_front
scan_front-le w zero i = omega arith
scan_front-le w (suc left) i = ground (arith, scan_front-le w left (suc i))

new_lar_bounds :
    (w : Driver) (i : ℕ)
    → w.lfs ≤ℤ pos 62
    → i ≤ slots
    → (negsuc 0 ≤ℤ new_lar w i) × (new_lar w i ≤ℤ pos 63)
unfolding new_lar
new_lar_bounds w i high h =
    go (scan_front w (pos_part (w.lfs +ℤ pos 1)) 0)
      (omega (arith, scan_front-le w (pos_part (w.lfs +ℤ pos 1)) 0, past w.lfs high))
  where
    past : (l : ℤ) → l ≤ℤ pos 62 → pos_part (l +ℤ pos 1) ≤ 63
    past l h = omega (int_laws, parts_apart (l +ℤ pos 1))

    go :
        (j : ℕ)
        → j ≤ 63
        → (negsuc 0 ≤ℤ (
            if i == slots
            then (if j == 0 then pos i -ℤ pos 1 else pos j -ℤ pos 1)
            else pos i -ℤ pos 1))
          × ((if i == slots
                then (if j == 0 then pos i -ℤ pos 1 else pos j -ℤ pos 1)
                else pos i -ℤ pos 1)
              ≤ℤ pos 63)
    go j le = unfold ◌-ℤ◌ in ground arith

scanned-IsSound :
    (w : Driver) (ack : ℕ) (o : Option ℕ)
    → IsDriver w
    → IsUpTo o
    → IsSound (after_ack ack (scanned w o))
unfolding scanned
scanned-IsSound w ack none v h = tt
scanned-IsSound w ack (some i) v h = record {
  lar_low = (new_lar_bounds w i v.lfs_high h).0;
  lar_high = (new_lar_bounds w i v.lfs_high h).1;
  lfs_low = v.lfs_low;
  lfs_high = v.lfs_high;
  bufpos = v.bufpos;
  sendbuf = v.sendbuf;
}

handle_ack-IsSound :
    (w : Driver) (ack : ℕ) (recv_time send_time : Timeval)
    → IsDriver w
    → IsSound (after_ack ack (handle_ack w ack recv_time send_time))
unfolding handle_ack scan_acked
handle_ack-IsSound w ack recv_time send_time v = elim (Bool-cases (ltb ack slots)) [
  | inl small ↦ rw small (
      scanned-IsSound _ ack _
        (record {
          lar_low = v.lar_low;
          lar_high = v.lar_high;
          lfs_low = v.lfs_low;
          lfs_high = v.lfs_high;
          bufpos = v.bufpos;
          sendbuf = length-clear 1 ack w.sendbuf ∙ v.sendbuf;
        })
        (scan-IsUpTo _ _ _ (inside w.lar v.lar_high)))
  | inr large ↦ rw large tt
]
  where
    inside : (l : ℤ) → l ≤ℤ pos 63 → pos_part (l +ℤ pos 1) + (slots - pos_part (l +ℤ pos 1)) ≤ slots
    inside l h = omega (int_laws, parts_apart (l +ℤ pos 1))

on_ack-IsSound :
    (time_of : List ℕ → Timeval) (now : Timeval) (w : Driver) (ackbuf : Option (List ℕ))
    → IsDriver w
    → IsSound (on_ack time_of now w ackbuf)
unfolding on_ack
on_ack-IsSound time_of now w none v = v
on_ack-IsSound time_of now w (some ackbuf) v = go (open_ack crc_init ackbuf)
  where
    go : (o : Option (ℕ × List ℕ)) → IsSound (opened time_of now w o)
    go none = v
    go (some (ack, stamp)) = handle_ack-IsSound w ack now (time_of stamp) v

on_block-IsDriver : (w : Driver) (block : Option Block) → IsDriver w → IsDriver (on_block w block)
unfolding on_block
on_block-IsDriver w none v = v
on_block-IsDriver w (some block) v = take_block-IsDriver w block v

send_next-IsDriver : (w : Driver) → IsDriver w → IsDriver (send_next w).0
send_next-IsDriver w v = elim (Bool-cases (may_send w)) [
  | inl allowed ↦ (send_next-outstanding w v allowed).1
  | inr held ↦ unfold send_next in rw held v
]

sent_last-IsSound : (o : Driver × Option Sent) → IsDriver o.0 → IsSound (sent_last o)
sent_last-IsSound (w, none) v = v
sent_last-IsSound (w, some frame) v = v

round-IsSound :
    (time_of : List ℕ → Timeval) (w : Driver) (r : Ready) → IsDriver w → IsSound (round time_of w r)
unfolding round
round-IsSound time_of w r v =
    then_on-IsSound (on_request w r.request) _ (on_request-IsSound w r.request v) (λ w' v'.
      then_on-IsSound (on_ack time_of r.now (on_block w' r.block) r.ack) _
        (on_ack-IsSound time_of r.now (on_block w' r.block) r.ack (on_block-IsDriver w' r.block v'))
        (λ w'' v''. sent_last-IsSound (send_next w'') (send_next-IsDriver w'' v'')))

-- Over any rounds from a driver whose indexes are in its buffer, whatever the timer, ftpc and the
-- network bring in and whenever, the indexes stay in the buffer and the buffer keeps its size, unless
-- a round accesses memory outside it.
pub run-IsSound :
    (time_of : List ℕ → Timeval) (rounds : List Ready) (w : Driver)
    → IsDriver w
    → IsSound (run time_of w rounds)
unfolding run
run-IsSound time_of [] w v = v
run-IsSound time_of (r ∷ rounds) w v =
    then_on-IsSound (round time_of w r) _ (round-IsSound time_of w r v)
      (λ w' v'. run-IsSound time_of rounds w' v')
