-- ===== src/Auth/Drift.antt =====
-- The bound on the drift of a timestamp, and where its 64-bit product wraps round.
use ligend.Prelude.{ℕ, ◌≤◌, ◌≡◌, ◌↔◌, false, arith}
use ligend.Auth.{AuthLib, AuthLibLaws, drift_too_large}

-- The product below 2^63 is exact, and at most 30 seconds pass. From 2^63 to 2^64 it reads as a
-- negative duration, which passes too.
pub drift_too_large_range :
    (lib : AuthLib) (x : ℕ)
    → AuthLibLaws lib
    → (x ≤ 9223372036 → (drift_too_large lib x ≡ false) ↔ (x ≤ 30))
      × (9223372037 ≤ x → x ≤ 18446744073 → drift_too_large lib x ≡ false)
unfolding drift_too_large
drift_too_large_range lib x laws = (
  λ h. rw (laws.exact x (omega arith)) (λ e. ground arith, λ k. ground arith),
  λ lo hi. rw (laws.exact x (omega arith)) (ground arith),
)
