-- ===== src/Webhooks/Backoff.antt =====
-- The wait before the next attempt.
use native.Mathlib.Nat.{pow-le-pow_right, one-le-pow}
use cixtech.Prelude.{ℕ, ◌+◌, ◌-◌, ◌^◌, ◌≤◌, ◌<◌, arith}
use cixtech.Webhooks.{backoff_at}

-- After one attempt or more, the next comes at least five seconds and at most one hour later, and
-- no earlier than it would after fewer attempts.
pub backoff_at-bounds :
    (now fewer more : ℕ)
    → 0 < fewer
    → fewer ≤ more
    → (now + 5_000 ≤ backoff_at now fewer)
      × (backoff_at now fewer ≤ backoff_at now more)
      × (backoff_at now more ≤ now + 3_600_000)
unfolding backoff_at
backoff_at-bounds now fewer more h k =
    let positive = one-le-pow (fewer - 1) 2 (omega arith) in
    let grows : 2 ^ (fewer - 1) ≤ 2 ^ (more - 1) = pow-le-pow_right (omega arith) (omega arith) in
    (omega arith, omega arith, omega arith)
