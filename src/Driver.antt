-- ===== src/Driver.antt =====
-- The send window in `client()` of tcpd.c: the driver's buffer and its three indexes, and what the
-- driver does with a block from ftpc, with an acknowledgement, with a request to resend, and at the
-- end of each round.
pub mod Sending
pub mod Acks
pub mod Rounds
pub mod Indexes
pub mod Flight
pub mod Scans
pub mod Places
pub mod Filled
pub mod Marks
pub mod Requests
pub mod Phases
pub mod Timeouts
mod Tests
use osu_cse.Base.{
  ℕ, zero, suc, ◌+◌, ◌-◌, Bool, true, false, ◌&&◌, ◌||◌, ◌==◌, ltb, leb, if◌then◌else◌,
}
use osu_cse.Base.{List, Option, none, some, set, replicate}
use osu_cse.Base.Int.{ℤ, pos, negsuc, pos_part, ◌+ℤ◌, ◌-ℤ◌, ltb_ℤ, leb_ℤ}
use osu_cse.Buffer.{Block, slots, window, blank, check_empty, slot, overlay, clear}
use osu_cse.Rtt.{tcp_rto_min, fresh_sock, TcpSock, tcp_rtt_estimator, set_rto}
use osu_cse.Timeval.{Timeval, calculate_rtt}

-- `lar` is the last acknowledgement received, `lfs` the last frame sent, `bufpos` where the next
-- block goes.
pub record Driver : Type 0 where
  pub sendbuf : List Block
  pub lar : ℤ
  pub lfs : ℤ
  pub bufpos : ℕ
  pub tp : TcpSock
  pub rtt : ℕ
  pub rto : ℕ

-- What `client` starts with, if the memory of `sendbuf`, which it does not clear, is zero.
abbrev pub unsent : Driver
unsent = record {
  sendbuf = replicate slots blank;
  lar = negsuc 0;
  lfs = negsuc 0;
  bufpos = 0;
  tp = fresh_sock;
  rtt = 0;
  rto = tcp_rto_min;
}

-- A frame that is sent, with the microseconds of the timer that is started for it.
pub record Sent : Type 0 where
  pub seq : ℕ
  pub body : Block
  pub timeout : ℕ

-- What an acknowledgement does; `overrun` is an access outside `sendbuf`.
pub data AckOutcome : Type 0 where
  acked : Driver → AckOutcome
  overrun : AckOutcome

-- The frame `seq` goes out with a new estimate of the timeout.
unfoldable pub transmit : Driver → ℕ → Driver × Sent
transmit w seq =
    let tp = tcp_rtt_estimator w.tp w.rtt in
    (
      record w { tp = tp; rto = set_rto tp },
      record { seq = seq; body = slot w.sendbuf seq; timeout = set_rto tp },
    )

-- A request to resend, from the timer; `none` is an access outside the buffer.
unfoldable pub resend : Driver → ℕ → Option (Driver × Sent)
resend w resend_id = if ltb resend_id slots then some (transmit w resend_id) else none

unfoldable pub has_room : Driver → Bool
has_room w =
    (leb_ℤ w.lar w.lfs && (ltb_ℤ w.lfs (pos w.bufpos) || leb_ℤ (pos w.bufpos) w.lar))
    || (ltb_ℤ w.lfs w.lar && (leb_ℤ (pos w.bufpos) w.lar && ltb_ℤ w.lfs (pos w.bufpos)))

-- A block from ftpc.
unfoldable pub take_block : Driver → Block → Driver
take_block w block =
    if has_room w
    then record w {
      sendbuf = set w.sendbuf w.bufpos (overlay block (slot w.sendbuf w.bufpos));
      bufpos = if w.bufpos + 1 == slots then 0 else w.bufpos + 1;
    }
    else w

-- `i <= (lfs >= lar) ? lfs : SEND_RECV_BUF_SIZE - 1`, which C reads as `(i <= (lfs >= lar)) ? … : …`.
pub goes_on : Driver → ℕ → Bool
goes_on w i =
    if leb i (if leb_ℤ w.lar w.lfs then 1 else 0)
    then (if leb_ℤ w.lfs (pos 0) && leb_ℤ (pos 0) w.lfs then false else true)
    else true

-- The first scan, with the rounds left before the end of the buffer: the last `i`, or `none` once
-- it reads behind the end.
pub scan : Driver → ℕ → ℕ → Option ℕ
scan w zero i = if goes_on w i then none else some i
scan w (suc left) i =
    let rest = scan w left (suc i) in
    if goes_on w i then (if check_empty (slot w.sendbuf i) then rest else some i) else some i

-- The second scan, from the front of the buffer, with the rounds left up to `lfs`.
pub scan_front : Driver → ℕ → ℕ → ℕ
scan_front w zero i = i
scan_front w (suc left) i =
    let rest = scan_front w left (suc i) in if check_empty (slot w.sendbuf i) then rest else i

-- `lar` after both scans.
pub new_lar : Driver → ℕ → ℤ
new_lar w i =
    let j = scan_front w (pos_part (w.lfs +ℤ pos 1)) 0 in
    if i == slots then (if j == 0 then pos i -ℤ pos 1 else pos j -ℤ pos 1) else pos i -ℤ pos 1

pub scanned : Driver → Option ℕ → AckOutcome
scanned w none = overrun
scanned w (some i) = acked (record w { lar = new_lar w i })

-- The scan starts at `lar + 1`.
pub scan_acked : Driver → AckOutcome
scan_acked w = scanned w (scan w (slots - pos_part (w.lar +ℤ pos 1)) (pos_part (w.lar +ℤ pos 1)))

-- An acknowledgement that passed its checksum, with the times at which it came and its frame went.
pub handle_ack : Driver → ℕ → Timeval → Timeval → AckOutcome
handle_ack w ack recv_time send_time =
    if ltb ack slots
    then scan_acked
        (record w { sendbuf = clear w.sendbuf ack 1; rtt = calculate_rtt recv_time send_time })
    else overrun

unfoldable pub may_send : Driver → Bool
may_send w =
    (leb_ℤ w.lar w.lfs
      && (ltb_ℤ (w.lfs -ℤ w.lar) (pos window)
          && (ltb_ℤ (w.lfs +ℤ pos 1) (pos w.bufpos) || leb_ℤ (pos w.bufpos) w.lar)))
    || (ltb_ℤ w.lfs w.lar
        && (ltb_ℤ (pos 63 -ℤ w.lar +ℤ w.lfs) (pos window) && ltb_ℤ (w.lfs +ℤ pos 1) (pos w.bufpos)))

-- `lfs++; if (lfs == SEND_RECV_BUF_SIZE - 1) lfs = -1;`
pub next_lfs : ℤ → ℤ
next_lfs lfs = if leb_ℤ (pos 62) lfs && leb_ℤ lfs (pos 62) then negsuc 0 else lfs +ℤ pos 1

-- The end of a round: the next frame goes out if the window allows it.
unfoldable pub send_next : Driver → Driver × Option Sent
send_next w =
    if may_send w
    then (
      record (transmit w (pos_part (w.lfs +ℤ pos 1))).0 { lfs = next_lfs w.lfs },
      some (transmit w (pos_part (w.lfs +ℤ pos 1))).1,
    )
    else (w, none)
