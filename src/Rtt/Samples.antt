-- ===== src/Rtt/Samples.antt =====
-- Bounds of the estimate over any samples.
use osu_cse.Base.{ℕ, ◌+◌, ◌-◌, ◌*◌, ◌/◌, ◌^◌, ◌≤◌, ◌<◌, ◌≡◌, refl, arith, List, [], ◌∷◌}
use osu_cse.Base.{false, inl, inr, Bool-cases, ◌⊎◌, ◌==◌, if◌then◌else◌}
use osu_cse.Base.Int.{pos, ◌+ℤ◌, ◌-ℤ◌}
use osu_cse.Timeval.{to_u32}
use osu_cse.Rtt.{TcpSock, set_rto, deviation, raise, decay, first_sample, smooth, tcp_rtt_estimator}
use osu_cse.Rtt.{fresh_sock, estimate, max, tcp_rto_min}

-- Samples up to `top` have been taken, one at least.
pub record IsEstimate (top : ℕ) (tp : TcpSock) : Type 0 where
  pub started : 1 ≤ tp.srtt
  pub mean : tp.srtt ≤ 8 * top
  pub spread : tp.mdev ≤ 4 * top
  pub floor : tcp_rto_min ≤ tp.mdev_max
  pub period : tp.mdev_max ≤ tp.rttvar
  pub ceiling : tp.rttvar ≤ 4 * top

srtt_step :
    (s m : ℕ)
    → s < 2 ^ 31
    → m < 2 ^ 31
    → to_u32 (pos s +ℤ (pos m -ℤ pos (s / 2 ^ 3))) ≡ s + m - s / 8
unfolding ◌+ℤ◌ ◌-ℤ◌
srtt_step s m hs hm = ground arith

-- The deviation stays within four times the largest error.
mdev_step :
    (top s m d : ℕ)
    → top < 2 ^ 28
    → s ≤ 8 * top
    → m ≤ top
    → d ≤ 4 * top
    → to_u32 (pos d +ℤ deviation (pos m -ℤ pos (s / 2 ^ 3)) d) ≤ 4 * top
unfolding deviation ◌+ℤ◌ ◌-ℤ◌
mdev_step top s m d ht hs hm hd = ground arith

-- The bounds between the parts of a further sample: those on `mdev_max` and `rttvar` alone.
record IsVariation (top : ℕ) (tp : TcpSock) : Type 0 where
  floor : tcp_rto_min ≤ tp.mdev_max
  period : tp.mdev_max ≤ tp.rttvar
  ceiling : tp.rttvar ≤ 4 * top

raise-IsVariation :
    (top : ℕ) (tp : TcpSock) → tp.mdev ≤ 4 * top → IsVariation top tp → IsVariation top (raise tp)
unfolding raise
raise-IsVariation top tp h v = ground arith

decay-IsVariation : (top : ℕ) (tp : TcpSock) → IsVariation top tp → IsVariation top (decay tp)
unfolding decay
decay-IsVariation top tp v = ground arith

-- Neither touches the mean and the deviation.
raise-keeps : (tp : TcpSock) → ((raise tp).srtt ≡ tp.srtt) × ((raise tp).mdev ≡ tp.mdev)
unfolding raise
raise-keeps tp = ground arith

decay-keeps : (tp : TcpSock) → ((decay tp).srtt ≡ tp.srtt) × ((decay tp).mdev ≡ tp.mdev)
unfolding decay
decay-keeps tp = ground arith

module _ (top : ℕ) (low : 500 ≤ top) (high : top < 2 ^ 28) where
  first_sample-IsEstimate :
      (tp : TcpSock) (m : ℕ) → 1 ≤ m → m ≤ top → IsEstimate top (first_sample tp m)
  unfolding first_sample
  first_sample-IsEstimate tp m lo hi = ground arith

  next_sample-IsEstimate :
      (tp : TcpSock) (m : ℕ)
      → 1 ≤ m
      → m ≤ top
      → IsEstimate top tp
      → IsEstimate top (decay (raise (smooth tp m)))
  unfolding smooth
  next_sample-IsEstimate tp m lo hi e = record {
    started = omega (arith, raised, decayed, mean_is);
    mean = omega (arith, raised, decayed, mean_is, e);
    spread = omega (arith, raised, decayed, spread_is);
    floor = varied.floor;
    period = varied.period;
    ceiling = varied.ceiling;
  }
    where
      raised :
          ((raise (smooth tp m)).srtt ≡ (smooth tp m).srtt)
          × ((raise (smooth tp m)).mdev ≡ (smooth tp m).mdev)
      raised = raise-keeps (smooth tp m)

      decayed :
          ((decay (raise (smooth tp m))).srtt ≡ (raise (smooth tp m)).srtt)
          × ((decay (raise (smooth tp m))).mdev ≡ (raise (smooth tp m)).mdev)
      decayed = decay-keeps (raise (smooth tp m))

      mean_is : (smooth tp m).srtt ≡ tp.srtt + m - tp.srtt / 8
      mean_is = srtt_step tp.srtt m (omega (arith, e)) (omega arith)

      spread_is : (smooth tp m).mdev ≤ 4 * top
      spread_is = mdev_step top tp.srtt m tp.mdev high e.mean hi e.spread

      varied : IsVariation top (decay (raise (smooth tp m)))
      varied = decay-IsVariation top (raise (smooth tp m)) (
          raise-IsVariation top (smooth tp m) spread_is
            (record { floor = e.floor; period = e.period; ceiling = e.ceiling }))

  pub estimator-IsEstimate :
      (tp : TcpSock) (m : ℕ)
      → m ≤ top
      → (tp.srtt ≡ 0) ⊎ IsEstimate top tp
      → IsEstimate top (tcp_rtt_estimator tp m)
  unfolding tcp_rtt_estimator
  estimator-IsEstimate tp m hi s = elim (Bool-cases (tp.srtt == 0)) [
    | inl new ↦ rw new (first_sample-IsEstimate tp (sample m) (positive m) (small m hi))
    | inr old ↦
        rw old (next_sample-IsEstimate tp (sample m) (positive m) (small m hi) (started s old))
  ]
    where
      sample : ℕ → ℕ
      sample m = if m == 0 then 1 else m

      positive : (m : ℕ) → 1 ≤ sample m
      positive m = ground arith

      small : (m : ℕ) → m ≤ top → sample m ≤ top
      small m hi = ground arith

      started : (tp.srtt ≡ 0) ⊎ IsEstimate top tp → (tp.srtt == 0) ≡ false → IsEstimate top tp
      started (inl zero_now) h = absurd (ground arith)
      started (inr e) h = e

  abbrev pub AllUpTo : List ℕ → Type 0
  AllUpTo [] = Unit
  AllUpTo (m ∷ samples) = (m ≤ top) × AllUpTo samples

  estimate-IsEstimate :
      (samples : List ℕ) (tp : TcpSock)
      → IsEstimate top tp
      → AllUpTo samples
      → IsEstimate top (estimate tp samples)
  estimate-IsEstimate [] tp e h = e
  estimate-IsEstimate (m ∷ samples) tp e h =
      estimate-IsEstimate samples (tcp_rtt_estimator tp m) (estimator-IsEstimate tp m h.0 (inr e))
        h.1

  pub set_rto_bounds :
      (tp : TcpSock) → IsEstimate top tp → (tcp_rto_min ≤ set_rto tp) × (set_rto tp ≤ 5 * top)
  unfolding set_rto
  set_rto_bounds tp e = (omega (arith, e), omega (arith, e))

  -- From `init` on, after any row of samples up to `top` microseconds, one at least, with `top`
  -- from 500 to 2 ^ 28 - 1, the timeout is at least TCP_RTO_MIN and at most five times `top`.
  pub set_rto-estimate :
      (m : ℕ) (samples : List ℕ)
      → AllUpTo (m ∷ samples)
      → (tcp_rto_min ≤ set_rto (estimate fresh_sock (m ∷ samples)))
        × (set_rto (estimate fresh_sock (m ∷ samples)) ≤ 5 * top)
  set_rto-estimate m samples h = set_rto_bounds (estimate fresh_sock (m ∷ samples)) (
      estimate-IsEstimate samples (tcp_rtt_estimator fresh_sock m)
        (estimator-IsEstimate fresh_sock m h.0 (inl refl)) h.1)

-- The first sample, if it is not zero and below 2 ^ 28, gives a timeout of three times the sample,
-- or of TCP_RTO_MIN more than it where twice the sample is less than that.
pub first_rto :
    (m : ℕ)
    → 1 ≤ m
    → m < 2 ^ 28
    → set_rto (tcp_rtt_estimator fresh_sock m) ≡ m + max (2 * m) tcp_rto_min
unfolding set_rto tcp_rtt_estimator first_sample
first_rto m lo hi = ground arith
