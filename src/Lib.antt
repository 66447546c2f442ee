-- ===== src/Lib.antt =====
-- Programs of a course on networks. project1——ShuangLi, ZicongZheng/ is a reliable file transfer over
-- UDP: the sender ftpc.c, the receiver ftps.c and the daemon tcpd.c, which runs on both sides and
-- stands in for TCP. proj1/timmer.c is the timer that tcpd.c was made from, lab1/count.c counts a
-- text in a file, lab2/ftpc.c and lab2/ftps.c send a file over TCP, and lab3 is a first step towards
-- the daemon.
--
-- In project1, ftpc sends the size and name of a file and then its blocks to its daemon. The daemon's
-- driver (`client`) numbers the blocks as frames, seals each with a checksum, and asks a timer
-- process over a pipe for a resend after a timeout that follows the round trip times. The daemon at
-- the other end (`server`) tests the checksum, puts the frames in order in a window, passes them to
-- ftps, and answers with an acknowledgement, with which the driver moves its own window on.
--
-- Base: numbers tested by Booleans, lists over native numbers, integers, bits.
-- Of project1:
-- Crc: `crcInit` and `crcFast` of tcpd.c. Crc.Reference divides a bit at a time, without a table.
-- Timeval: `timeval_subtract`, `timeval_add`, `calculate_rtt` of tcpd.c. What `timeval_subtract`
--   writes through `y` is a part of its result.
-- Timer: the delta list of tcpd.c, `find_timenode`, `add_timenode`, `delete_timenode` and
--   `update_time_list`. Timer.Deadlines reads a list as ids with the times at which they are due.
-- Rtt: `struct tcp_sock`, `init`, `tcp_rtt_estimator` and `__tcp_set_rto` of tcpd.c.
-- Bytes, Message: the requests that `starttimer`, `canceltimer`, `stop_timing` and
--   `update_time_list` write, and how the timer and the driver read them.
-- Buffer, Receiver: `checkEmpty` and the window of `server` (`recvbuf`, `lfr`, `laf`), from the test
--   of a frame's number to the slide. Receiver.Order has the frames of a file arrive in any order.
--   A block may come as zeros, where its slot was emptied before it was sent again.
-- Packet: the bytes of `struct Packet` from the TCP header on, as `client` seals them and as `server`
--   tests and reads them, and what `server` does with a packet. Packet.Traffic puts the checksum and
--   the window together, for the packets of a file and garbled ones.
-- Ack: the answer of `server` to a packet, and how `client` reads it.
-- Driver: the send window of `client` (`sendbuf`, `lar`, `lfs`, `bufpos`) with the timeout of each
--   frame: `take_block` for a block from ftpc, `handle_ack`, `resend`, `send_next`. Driver.Rounds
--   puts them together, with the requests and acknowledgements as bytes, to the rounds of the loop.
--   Driver.Timeouts follows the timeouts through them.
-- TimerLoop: the loop of the timer process around `select`, with `timeout1`, its pointer to the time
--   of a node. What `select` reports and leaves in its timeout is given with each round.
--   Timer.Pending and TimerLoop.Shorter follow one timer through the list and through what `select`
--   leaves, and TimerLoop.Asking joins the timer with the driver.
-- Ftp: the messages of ftpc.c for a file, and what ftps.c writes of them. Ftp.Paths has the name of
--   the file in both programs and the path that ftps.c opens; a read beyond a variable is no result.
-- Session: both daemons and the network. A relation says which states are reached by rounds of the
--   driver, by packets of frames that were sent, and by sealed ones with two bytes changed. Driver.Places, Driver.Filled,
--   Driver.Requests and Driver.Phases carry through a round where the blocks of the file are in
--   `sendbuf`, whose memory is taken to be zero at first. Session.Files joins the session with Ftp,
--   and Session.Delivery builds sessions without loss.
-- Of the others:
-- EarlyTimer: the delta list of proj1/timmer.c in a heap of cells with both links. EarlyTimer.Ranks
--   and EarlyTimer.Backs follow these links, with those that deletions leave stale, through its loop.
-- Count: lab1/count.c, `compare` and the loop of `main` over the pieces that `fgets` reads.
-- Stream: the messages of lab2/ftpc.c, the loop of lab2/ftps.c over the pieces in which the bytes come
--   out of the connection, and the path that it opens.
--
-- Seconds and microseconds are integers without bound, and so is `nsec` of `timeval_subtract`, an
-- int in the source, which holds it while the microseconds of two times differ by less than 2147
-- seconds; a time given as a double is a number of whole microseconds; reading the bytes of a
-- double or of a `struct timeval` is a parameter. `u32`, `crc` and bytes wrap round as in the
-- source; an `int` in a message is its 32 bits, lowest byte first. A block is a list of bytes and a
-- buffer a list of blocks; an access outside a buffer and a null pointer that is followed are
-- outcomes of their own. The links of a new node are taken to be null. Loops recurse on the list or
-- on the rounds that are left. The loop over a file in Ftp runs on the file's length as fuel,
-- enough as each round takes a byte or more; a walk over the list in EarlyTimer runs on the number
-- of cells, enough as the list has no more nodes (EarlyTimer.Fuel); the loop of Count has a fuel of
-- its own, and how much it needs is stated; its two ints are written as their 32 bits. The models
-- of the servers hold for sizes below 2 ^ 31.
--
-- Not modelled: sockets, pipes, their errors, making directories, opening files, printing, the
-- number of arguments of programs. SEND of lab3/function.c hands a number to inet_addr as the
-- address of a text, so that the client of lab3 ends before it sends anything; the server there is
-- that of lab2 around a call for receiving whose body is empty, and the daemon does not compile.
-- lab3/totroll.c and fromtroll.c are test programs of the troll utility. lab4, lab5 and proj2 are
-- example scripts of the ns-3 simulator with other settings.
pub mod Base
pub mod Crc
pub mod Timeval
pub mod Timer
pub mod Rtt
pub mod Bytes
pub mod Message
pub mod Ftp
pub mod Buffer
pub mod Receiver
pub mod Packet
pub mod Driver
pub mod Count
pub mod Stream
pub mod Ack
pub mod EarlyTimer
pub mod Session
pub mod TimerLoop
