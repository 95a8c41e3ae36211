-- ===== src/Loop/Eases.antt =====
-- The delays of a worker's polls (backoff.ts).
use native.Mathlib.Nat.{mul-le-mul_right, mul_assoc, le-mul_of_pos_right, pow-suc, pow-zero}
use karya_kram.Base.{
  ℕ, zero, suc, ◌*◌, ◌^◌, ◌≤◌, ◌<◌, ◌≡◌, refl, ap, min, Bool, true, false, List, [], ◌∷◌, arith,
  Bool-cases, inl, inr, leb,
}
use karya_kram.Base.Throws.{returned}
use karya_kram.Loop.Polling.{
  PollBackoffConfig, PollBackoff, new_poll_backoff, on_empty, on_work, delay_ms,
}

-- The polls so far, each with whether it found tasks.
abbrev pub after_polls : List Bool → PollBackoff → PollBackoff
after_polls [] b = b
after_polls (true ∷ found) b = after_polls found (on_work b)
after_polls (false ∷ found) b = after_polls found (on_empty b)

abbrev pub after_empties : ℕ → PollBackoff → PollBackoff
after_empties zero b = b
after_empties (suc n) b = on_empty (after_empties n b)

min-scaled : (a top m : ℕ) → 0 < m → min (min a top * m) top ≡ min (a * m) top
min-scaled a top m h = elim (Bool-cases (leb a top)) [
  | inl e ↦ let same : min a top ≡ a = ground arith in rw same refl
  | inr e ↦
      let same : min a top ≡ top = ground arith in
      let low : top ≤ a = ground arith in
      rw same (omega (arith, le-mul_of_pos_right top h, mul-le-mul_right m low))
]

after_empties-delay :
    (n : ℕ) (b : PollBackoff)
    → 0 < b.config.multiplier
    → b.current_ms ≤ b.config.max_ms
    → (delay_ms (after_empties n b) ≡ min (b.current_ms * b.config.multiplier ^ n) b.config.max_ms)
      × ((after_empties n b).config ≡ b.config)
after_empties-delay zero b pos le = (rw (pow-zero b.config.multiplier) (omega (arith, le)), refl)
after_empties-delay (suc n) b pos le =
    let ih = after_empties-delay n b pos le in
    let top = b.config.max_ms in
    let m = b.config.multiplier in
    (
      rw (ih.1, ih.0, pow-suc m n, ← mul_assoc b.current_ms (m ^ n) m)
          (min-scaled (b.current_ms * m ^ n) top m pos),
      rw ih.1 refl,
    )

-- A backoff whose delay is within its bounds.
abbrev pub InBounds : PollBackoffConfig → PollBackoff → Type 0
InBounds c b = (b.config ≡ c) × (c.min_ms ≤ b.current_ms) × (b.current_ms ≤ c.max_ms)

polls-InBounds :
    (c : PollBackoffConfig) (found : List Bool) (b : PollBackoff)
    → c.min_ms ≤ c.max_ms
    → 1 < c.multiplier
    → InBounds c b
    → InBounds c (after_polls found b)
polls-InBounds c [] b le m h = h
polls-InBounds c (true ∷ found) b le m h =
    polls-InBounds c found (on_work b) le m (h.0, rw h.0 (omega arith), rw h.0 le)
polls-InBounds c (false ∷ found) b le m h =
    let pos : 0 < c.multiplier = omega (arith, m) in
    let grows = le-mul_of_pos_right b.current_ms pos in
    polls-InBounds c found (on_empty b) le m
      (h.0, rw h.0 (omega (arith, grows, h.1, le)), rw h.0 (omega arith))

constructed :
    (c : PollBackoffConfig) (b : PollBackoff)
    → new_poll_backoff c ≡ returned b
    → (c.min_ms ≤ c.max_ms)
      × (1 < c.multiplier)
      × (b ≡ record { config = c; current_ms = c.min_ms })
unfolding new_poll_backoff
constructed c b h = ground arith

-- For a poll backoff that its constructor made, the delay after any polls is between minMs and
-- maxMs; and after a poll that found work followed by n empty ones it is minMs times the
-- multiplier to the n, or maxMs where that is less.
pub poll_delay :
    (c : PollBackoffConfig) (b : PollBackoff) (found : List Bool) (n : ℕ)
    → new_poll_backoff c ≡ returned b
    → (c.min_ms ≤ delay_ms (after_polls found b))
      × (delay_ms (after_polls found b) ≤ c.max_ms)
      × (delay_ms (after_empties n (on_work (after_polls found b)))
          ≡ min (c.min_ms * c.multiplier ^ n) c.max_ms)
poll_delay c b found n h =
    let made = constructed c b h in
    let start : InBounds c b = rw made.2 (refl, omega arith, made.0) in
    let bounds = polls-InBounds c found b made.0 made.1 start in
    let reset = on_work (after_polls found b) in
    let eased : delay_ms (after_empties n reset)
        ≡ min (reset.current_ms * reset.config.multiplier ^ n) reset.config.max_ms =
      (after_empties-delay n reset (rw bounds.0 (omega (arith, made.1)))
        (rw (ap (λ k. k.min_ms) bounds.0, ap (λ k. k.max_ms) bounds.0) made.0)).0 in
    (bounds.1, bounds.2, rw (← bounds.0) eased)
