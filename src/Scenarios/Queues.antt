-- ===== src/Scenarios/Queues.antt =====
-- Two tasks in the queue, leased, lost and requeued.
use karya_kram.Base.{
  ℕ, ◌+◌, ◌≤◌, ◌≡◌, refl, max, ◌*◌, ◌^◌, leb, if◌then◌else◌, Bool, true, false, none, some, List,
  [], ◌∷◌, arith, length,
}
use karya_kram.Queue.Task.{TaskType, pending, dead, Task}
use karya_kram.Queue.Backoff.{RetryDelayOptions, compute_retry_delay_with_floor}
use karya_kram.Queue.BackoffBounds.{retry_delay-bounds}
use karya_kram.Queue.Ops.{EnqueueInput, DequeueInput, LeaseFence, new_task, dequeue, is_lease_owned}
use karya_kram.Queue.Invariant.{Inv}
use karya_kram.Queue.Steps.{Query, enqueues, dequeues, reclaims, steps, empty, reachable-Inv}
use karya_kram.Queue.Fencing.{lost_lease}
use karya_kram.Queue.CrashLoop.{alone, crash_rounds, crash_loop}
use karya_kram.Queue.PoisonPill.{fail_rounds, poison_pill}

abbrev activity_task : EnqueueInput
activity_task = record {
  task_type = TaskType.activity;
  workflow_id = "wf";
  queue = none;
  scheduled_event_seq = some 2;
  run_after = none;
  max_attempts = none;
  trace_context = none;
}

abbrev worker_a : DequeueInput
worker_a = record { worker_id = "a"; queue = none; task_type = none; limit = 1; lease_seconds = 30 }

abbrev pub free : ℕ → Bool
free i = false

abbrev pub two_tasks : List Query
two_tasks = enqueues activity_task 5 ∷ enqueues activity_task 6 ∷ []

abbrev lease_of_a : LeaseFence
lease_of_a = record { task_id = 0; worker_id = "a"; attempt = 1 }

abbrev leased_by_a : List Query
leased_by_a = enqueues activity_task 5 ∷ enqueues activity_task 6 ∷ dequeues worker_a 10 free ∷ []

-- The lease runs out, and then the same worker leases the task again.
abbrev expires : List Query
expires = reclaims 100 40000 free ∷ []

abbrev leases_again : List Query
leases_again = dequeues worker_a 40001 free ∷ []

a_owns : is_lease_owned lease_of_a (steps empty leased_by_a) ≡ true
unfolding is_lease_owned steps
a_owns = refl

a_lost : is_lease_owned lease_of_a (steps (steps empty leased_by_a) expires) ≡ false
unfolding is_lease_owned steps
a_lost = refl

lost_lease_example :
    is_lease_owned lease_of_a (steps (steps (steps empty leased_by_a) expires) leases_again) ≡ false
lost_lease_example =
    lost_lease lease_of_a (steps empty leased_by_a) expires leases_again (reachable-Inv leased_by_a)
      a_owns (tt, tt) (tt, tt) a_lost

reachable-Inv_example : Inv (steps empty leased_by_a)
reachable-Inv_example = reachable-Inv leased_by_a

one_granted : length (dequeue worker_a 10 free (steps empty two_tasks)).1 ≡ 1
unfolding dequeue steps
one_granted = refl

abbrev crashing : Task
crashing = new_task activity_task 0 5

-- Seven crashes, where `max_attempts` is 3.
crash_loop_example :
    (u : Task) × (crash_rounds 7 worker_a 10 (alone crashing) ≡ alone u)
    × (u.status ≡ pending)
    × (u.attempt ≡ 0 + 7)
    × (u.max_attempts ≡ 3)
crash_loop_example = crash_loop 7 worker_a 10 crashing (omega arith) refl

abbrev halfway : RetryDelayOptions
halfway = record { base_seconds = 1; max_seconds = 300; random = 4503599627370496 }

third_delay : compute_retry_delay_with_floor 3 500 halfway ≡ some 2000
unfolding compute_retry_delay_with_floor
third_delay = refl

retry_delay-bounds_example : (500 ≤ 2000) × (2000 ≤ max 500 (300 * 1000))
retry_delay-bounds_example = retry_delay-bounds 3 500 2000 halfway (omega arith) third_delay

-- A task with its three attempts, each of which fails.
abbrev poison : Task
poison = new_task activity_task 0 5

abbrev half_delays : List RetryDelayOptions
half_delays =
    record { base_seconds = 1; max_seconds = 300; random = 2 ^ 52 }
    ∷ record { base_seconds = 1; max_seconds = 300; random = 0 }
    ∷ record { base_seconds = 1; max_seconds = 300; random = 7 }
    ∷ []

poison_pill_example :
    (u : Task) × (fail_rounds "boom" 0 worker_a half_delays 10 (alone poison) ≡ alone u)
    × (u.status ≡ (if leb 3 3 then dead else pending))
    × (u.attempt ≡ 3)
poison_pill_example =
    poison_pill "boom" 0 worker_a half_delays 10 poison (omega arith)
      (omega arith, (omega arith, (omega arith, tt))) refl (omega arith) (omega arith)
