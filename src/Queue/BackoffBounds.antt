-- ===== src/Queue/BackoffBounds.antt =====
-- The bounds of a retry delay (backoff.ts).
use native.Mathlib.Nat.{mul-le-mul_right}
use karya_kram.Base.{ℕ, ◌*◌, ◌/◌, ◌^◌, ◌-◌, ◌≤◌, ◌<◌, ◌≡◌, min, max, some, arith}
use karya_kram.Queue.Backoff.{
  RetryDelayOptions, random_range, compute_retry_delay, compute_retry_delay_with_floor,
}

-- A share of `n` below the whole is at most `n`.
share-le : (r n : ℕ) → r < random_range → r * n / random_range ≤ n
share-le r n lt =
    let at_most : r ≤ 2 ^ 53 = omega arith in omega (arith, mul-le-mul_right n at_most)

-- For a random draw below 1, a retry delay that is computed is at least the floor, and at most the
-- greater of the floor and the cap.
pub retry_delay-bounds :
    (attempt min_delay d : ℕ) (o : RetryDelayOptions)
    → o.random < random_range
    → compute_retry_delay_with_floor attempt min_delay o ≡ some d
    → (min_delay ≤ d) × (d ≤ max min_delay (o.max_seconds * 1000))
unfolding compute_retry_delay_with_floor compute_retry_delay
retry_delay-bounds attempt min_delay d o lt h =
    let capped = min o.max_seconds (o.base_seconds * 2 ^ (attempt - 1)) in
    ground (arith, share-le o.random (capped * 1000) lt)
