-- ===== src/Queue/PoisonPill.antt =====
-- A task whose handler throws on every attempt (queue.ts, `dequeue` and `fail`; worker.ts, `dispatch`).
use karya_kram.Base.{
  ℕ, ◌+◌, ◌*◌, ◌≤◌, ◌<◌, ◌≡◌, refl, ap, ◌∙◌, max, String, true, some, List, [], ◌∷◌, arith, length,
  All, leb, Option-cases, inl, inr, if◌then◌else◌, beq_refl, text_eq,
}
use karya_kram.Queue.Task.{pending, dead, Task, Tasks}
use karya_kram.Queue.Backoff.{
  RetryDelayOptions, random_range, compute_retry_delay, compute_retry_delay_with_floor,
}
use karya_kram.Queue.BackoffBounds.{retry_delay-bounds}
use karya_kram.Queue.Ops.{
  DequeueInput, FailInput, dequeue, fail, fail_after, is_candidate, is_held, lease, record_failure,
}
use karya_kram.Queue.Steps.{table_after}
use karya_kram.Queue.CrashLoop.{unlocked, alone, pick_one, dequeue-alone}

-- The errors of the runs of the tasks that were leased.
unfoldable pub fail_all :
    String → ℕ → DequeueInput → RetryDelayOptions → ℕ → List Task → Tasks → Tasks
unfolding fail
fail_all error min_delay input o now [] q = q
fail_all error min_delay input o now (t ∷ ts) q = fail_all error min_delay input o now ts (
    table_after q (
      fail
        (record {
          task_id = t.id;
          worker_id = input.worker_id;
          error = error;
          attempt = t.attempt;
          min_delay = min_delay;
        })
        o now q))

unfoldable pub fail_round : String → ℕ → DequeueInput → RetryDelayOptions → ℕ → Tasks → Tasks
unfolding dequeue fail_all
fail_round error min_delay input o now q =
    let r = dequeue input now unlocked q in fail_all error min_delay input o now r.1 r.0

-- The next round is when any delay that may have been drawn is over.
abbrev pub next_round : ℕ → RetryDelayOptions → ℕ → ℕ
next_round min_delay o now = now + max min_delay (o.max_seconds * 1000)

unfoldable pub fail_rounds : String → ℕ → DequeueInput → List RetryDelayOptions → ℕ → Tasks → Tasks
unfolding fail_round
fail_rounds error min_delay input [] now q = q
fail_rounds error min_delay input (o ∷ os) now q =
    fail_rounds error min_delay input os (next_round min_delay o now)
      (fail_round error min_delay input o now q)

dequeue-tasks :
    (input : DequeueInput) (now : ℕ) (t : Task)
    → 0 < input.limit
    → is_candidate input now unlocked t ≡ true
    → (dequeue input now unlocked (alone t)).1 ≡ lease input now t ∷ []
unfolding dequeue
dequeue-tasks input now t h e =
    rw (pick_one input.limit (λ u. u.run_after) (is_candidate input now unlocked) t h e)
      (ground arith)

-- The delay of an attempt from 1 up is drawn.
delay-some :
    (attempt min_delay : ℕ) (o : RetryDelayOptions)
    → 0 < attempt
    → (d : ℕ) × (compute_retry_delay_with_floor attempt min_delay o ≡ some d)
unfolding compute_retry_delay_with_floor compute_retry_delay
delay-some attempt min_delay o h =
    elim (Option-cases (compute_retry_delay_with_floor attempt min_delay o)) [
      | inl e ↦ absurd (ground (arith, h, e))
      | inr drawn ↦ drawn
    ]

fail_after-alone :
    (input : FailInput) (delay now : ℕ) (t : Task)
    → is_held input.task_id input.worker_id t ≡ true
    → (fail_after input delay now (alone t)).0 ≡ alone (record_failure input.error now delay t)
unfolding fail_after
fail_after-alone input delay now t e = rw e refl

fail-alone :
    (input : FailInput) (o : RetryDelayOptions) (delay now : ℕ) (t : Task)
    → compute_retry_delay_with_floor input.attempt input.min_delay o ≡ some delay
    → is_held input.task_id input.worker_id t ≡ true
    → table_after (alone t) (fail input o now (alone t))
      ≡ alone (record_failure input.error now delay t)
unfolding fail
fail-alone input o delay now t drawn e =
    rw (drawn, table_after) (fail_after-alone input delay now t e)

-- The row after a round with a delay of `d`.
abbrev pub failed_row : String → DequeueInput → ℕ → ℕ → Task → Task
failed_row error input now d t = record_failure error now d (lease input now t)

fail_round-alone :
    (error : String) (min_delay : ℕ) (input : DequeueInput) (o : RetryDelayOptions) (now : ℕ)
    (t : Task)
    → 0 < input.limit
    → o.random < random_range
    → is_candidate input now unlocked t ≡ true
    → (d : ℕ) × (d ≤ max min_delay (o.max_seconds * 1000))
      × (fail_round error min_delay input o now (alone t) ≡ alone (failed_row error input now d t))
unfolding fail_round fail_all
fail_round-alone error min_delay input o now t h below e =
    let (d, drawn) = delay-some (t.attempt + 1) min_delay o (omega arith) in
    let bounds = retry_delay-bounds (t.attempt + 1) min_delay d o below drawn in
    let held : is_held t.id input.worker_id (lease input now t) ≡ true =
      ground (arith, beq_refl input.worker_id) in
    (
      d,
      bounds.1,
      rw (dequeue-alone input now t h e, dequeue-tasks input now t h e)
          (fail-alone
            (record {
              task_id = t.id;
              worker_id = input.worker_id;
              error = error;
              attempt = t.attempt + 1;
              min_delay = min_delay;
            })
            o d now (lease input now t) drawn held),
    )

-- While attempts remain, the row is due again in the next round.
due_again :
    (error : String) (min_delay : ℕ) (input : DequeueInput) (o : RetryDelayOptions) (now d : ℕ)
    (t : Task)
    → d ≤ max min_delay (o.max_seconds * 1000)
    → is_candidate input now unlocked t ≡ true
    → t.attempt + 1 < t.max_attempts
    → is_candidate input (next_round min_delay o now) unlocked (failed_row error input now d t)
      ≡ true
due_again error min_delay input o now d t at_most e left = ground (arith, e, at_most, left)

-- A task alone in the queue, due for a worker with a positive limit, whose handler throws in each
-- of one or more rounds, no more than the attempts that it has left, each begun when any delay
-- drawn below its bounds is over: after them its attempts have grown by the rounds, and it is dead
-- where they reach max_attempts and pending where they do not.
pub poison_pill :
    (error : String) (min_delay : ℕ) (input : DequeueInput) (os : List RetryDelayOptions) (now : ℕ)
    (t : Task)
    → 0 < input.limit
    → All (λ o. o.random < random_range) os
    → is_candidate input now unlocked t ≡ true
    → t.attempt + length os ≤ t.max_attempts
    → 0 < length os
    → (u : Task) × (fail_rounds error min_delay input os now (alone t) ≡ alone u)
      × (u.status ≡ (if leb t.max_attempts (t.attempt + length os) then dead else pending))
      × (u.attempt ≡ t.attempt + length os)
unfolding fail_rounds
poison_pill error min_delay input [] now t h below e le pos = absurd (omega arith)
poison_pill error min_delay input (o ∷ []) now t h below e le pos =
    let (d, at_most, one) = fail_round-alone error min_delay input o now t h below.0 e in
    (failed_row error input now d t, one, refl, refl)
poison_pill error min_delay input (o ∷ o' ∷ os) now t h below e le pos =
    let (d, at_most, one) = fail_round-alone error min_delay input o now t h below.0 e in
    let t' = failed_row error input now d t in
    let due : is_candidate input (next_round min_delay o now) unlocked t' ≡ true =
      due_again error min_delay input o now d t at_most e (omega (arith, le)) in
    let (u, rest, status, attempt) =
      poison_pill error min_delay input (o' ∷ os) (next_round min_delay o now) t' h below.1 due
        (omega (arith, le)) (omega arith) in
    let same : t.attempt + 1 + length (o' ∷ os) ≡ t.attempt + length (o ∷ o' ∷ os) = omega arith in
    (
      u,
      rw one rest,
      status ∙ ap (λ n. if leb t.max_attempts n then dead else pending) same,
      attempt ∙ same,
    )
