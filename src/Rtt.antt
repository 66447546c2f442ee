-- ===== src/Rtt.antt =====
-- The retransmission timeout of tcpd.c: `struct tcp_sock`, `init`, `tcp_rtt_estimator`,
-- `__tcp_set_rto`. The fields are u32; a `long` that can be negative is an integer.
pub mod Samples
mod Tests
use osu_cse.Base.{ℕ, ◌+◌, ◌-◌, ◌*◌, ◌/◌, ◌%◌, ◌^◌, Bool, ◌==◌, ltb, if◌then◌else◌}
use osu_cse.Base.{List, [], ◌∷◌}
use osu_cse.Base.Int.{ℤ, pos, pos_part, ◌+ℤ◌, ◌-ℤ◌, ltb_ℤ}
use osu_cse.Timeval.{to_u32}

abbrev pub tcp_rto_min : ℕ
tcp_rto_min = 2000

abbrev pub max : ℕ → ℕ → ℕ
max a b = if ltb b a then a else b

pub record TcpSock : Type 0 where
  pub srtt : ℕ
  pub mdev : ℕ
  pub mdev_max : ℕ
  pub rttvar : ℕ
  pub rtt_seq : ℕ
  pub snd_una : ℕ
  pub snd_nxt : ℕ

abbrev pub u32 : ℕ → ℕ
u32 n = n % 2 ^ 32

-- The unsigned difference is above zero.
abbrev pub after : ℕ → ℕ → Bool
after seq1 seq2 = ltb 0 (u32 (seq1 + 2 ^ 32 - seq2))

pub set_rto : TcpSock → ℕ
set_rto tp = u32 (tp.srtt / 2 ^ 3 + tp.rttvar)

-- The change of `mdev` by an error `m` of the estimate.
pub deviation : ℤ → ℕ → ℤ
deviation m mdev =
    if ltb_ℤ m (pos 0)
    then (let m' = pos 0 -ℤ m -ℤ pos (mdev / 2 ^ 2) in
        if ltb_ℤ (pos 0) m' then pos (pos_part m' / 2 ^ 3) else m')
    else m -ℤ pos (mdev / 2 ^ 2)

-- `mdev_max` and `rttvar` follow a larger `mdev`.
pub raise : TcpSock → TcpSock
raise tp =
    if ltb tp.mdev_max tp.mdev
    then record tp {
      mdev_max = tp.mdev;
      rttvar = if ltb tp.rttvar tp.mdev then tp.mdev else tp.rttvar;
    }
    else tp

-- Once the acknowledgements pass `rtt_seq`, `rttvar` comes down towards `mdev_max`.
pub decay : TcpSock → TcpSock
decay tp =
    if after tp.snd_una tp.rtt_seq
    then record tp {
      rttvar =
          if ltb tp.mdev_max tp.rttvar
          then tp.rttvar - (tp.rttvar - tp.mdev_max) / 2 ^ 2
          else tp.rttvar;
      mdev_max = tcp_rto_min;
    }
    else tp

pub first_sample : TcpSock → ℕ → TcpSock
first_sample tp m = record tp {
  srtt = u32 (m * 2 ^ 3);
  mdev = u32 (m * 2);
  mdev_max = max (u32 (m * 2)) tcp_rto_min;
  rttvar = max (u32 (m * 2)) tcp_rto_min;
}

-- `srtt` and `mdev` after a further sample.
pub smooth : TcpSock → ℕ → TcpSock
unfolding deviation
smooth tp m = record tp {
  srtt = to_u32 (pos tp.srtt +ℤ (pos m -ℤ pos (tp.srtt / 2 ^ 3)));
  mdev = to_u32 (pos tp.mdev +ℤ deviation (pos m -ℤ pos (tp.srtt / 2 ^ 3)) tp.mdev);
}

pub tcp_rtt_estimator : TcpSock → ℕ → TcpSock
tcp_rtt_estimator tp mrtt =
    let m = if mrtt == 0 then 1 else mrtt in
    if tp.srtt == 0 then first_sample tp m else decay (raise (smooth tp m))

-- `init`
abbrev pub fresh_sock : TcpSock
fresh_sock = record {
  srtt = 0;
  mdev = 0;
  mdev_max = 0;
  rttvar = 0;
  rtt_seq = 0;
  snd_una = 0;
  snd_nxt = 0;
}

-- The estimator over the samples of a connection, in order.
abbrev pub estimate : TcpSock → List ℕ → TcpSock
estimate tp [] = tp
estimate tp (m ∷ samples) = estimate (tcp_rtt_estimator tp m) samples
