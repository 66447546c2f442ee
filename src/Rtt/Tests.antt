-- ===== src/Rtt/Tests.antt =====
-- Runs of the estimator.
use osu_cse.Base.{◌≡◌, refl, [], ◌∷◌}
use osu_cse.Base.Int.{◌+ℤ◌, ◌-ℤ◌}
use osu_cse.Rtt.{set_rto, tcp_rtt_estimator, fresh_sock, estimate}
use osu_cse.Rtt.{smooth, raise, decay, first_sample}

three_samples : set_rto (estimate fresh_sock (4000 ∷ 3000 ∷ 9000 ∷ [])) ≡ 14890
unfolding set_rto tcp_rtt_estimator smooth raise decay first_sample ◌+ℤ◌ ◌-ℤ◌
three_samples = refl
