-- ===== src/Queue/Backoff.antt =====
-- packages/db/src/backoff.ts: the retry delay, in milliseconds. `random` is the 53-bit numerator of
-- `Math.random()`; the product is rounded down to a millisecond.
use karya_kram.Base.{ℕ, ◌-◌, ◌*◌, ◌/◌, ◌^◌, min, max, Option, none, some, ltb, if◌then◌else◌}

pub record RetryDelayOptions : Type 0 where
  pub base_seconds : ℕ
  pub max_seconds : ℕ
  pub random : ℕ

abbrev pub random_range : ℕ
random_range = 2 ^ 53

-- `none` is the error thrown for an attempt below 1.
unfoldable pub compute_retry_delay : ℕ → RetryDelayOptions → Option ℕ
compute_retry_delay attempt o =
    if ltb attempt 1
    then none
    else (let capped = min o.max_seconds (o.base_seconds * 2 ^ (attempt - 1)) in
        some (o.random * (capped * 1000) / random_range))

unfoldable pub compute_retry_delay_with_floor : ℕ → ℕ → RetryDelayOptions → Option ℕ
unfolding compute_retry_delay
compute_retry_delay_with_floor attempt min_delay o = elim (compute_retry_delay attempt o) [
  | none ↦ none
  | some delay ↦ some (max delay min_delay)
]
