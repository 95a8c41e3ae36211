-- ===== src/Queue/Steps.antt =====
-- Any sequence of queries by workers, the reaper and operators, each one atomic step (queue.ts, dlq.ts).
use karya_kram.Base.{ℕ, String, Bool, Option, none, some, List, [], ◌∷◌, arith}
use karya_kram.Queue.Task.{Tasks}
use karya_kram.Queue.Backoff.{RetryDelayOptions}
use karya_kram.Queue.Ops.{
  EnqueueInput, DequeueInput, FailInput, enqueue, dequeue, heartbeat, complete, fail,
  reclaim_expired,
}
use karya_kram.Queue.DeadLetters.{requeue_dead_task}
use karya_kram.Queue.Invariant.{Inv}
use karya_kram.Queue.Preserve.{
  WhenSome, enqueue-Inv, dequeue-Inv, heartbeat-Inv, complete-Inv, fail-Inv, reclaim_expired-Inv,
}
use karya_kram.Queue.Requeued.{requeue_dead_task-Inv}

-- A query with its arguments, the time and the rows that others hold.
pub data Query : Type 0 where
  enqueues : EnqueueInput → ℕ → Query
  dequeues : DequeueInput → ℕ → (ℕ → Bool) → Query
  heartbeats : List ℕ → String → ℕ → ℕ → Query
  completes : ℕ → String → Query
  fails : FailInput → RetryDelayOptions → ℕ → Query
  reclaims : ℕ → ℕ → (ℕ → Bool) → Query
  requeues : ℕ → ℕ → Query

-- An error leaves the table as it was.
abbrev pub table_after : Tasks → Option (Tasks × Bool) → Tasks
table_after q none = q
table_after q (some r) = r.0

unfoldable pub step : Tasks → Query → Tasks
unfolding enqueue dequeue heartbeat complete fail reclaim_expired requeue_dead_task
step q (enqueues input now) = (enqueue input now q).0
step q (dequeues input now locked) = (dequeue input now locked q).0
step q (heartbeats ids worker lease_seconds now) = (heartbeat ids worker lease_seconds now q).0
step q (completes i worker) = (complete i worker q).0
step q (fails input options now) = table_after q (fail input options now q)
step q (reclaims limit now locked) = (reclaim_expired limit now locked q).0
step q (requeues i now) = table_after q (requeue_dead_task i now q)

unfoldable pub steps : Tasks → List Query → Tasks
unfolding step
steps q [] = q
steps q (s ∷ ss) = steps (step q s) ss

abbrev pub empty : Tasks
empty = record { rows = []; next_id = 0; notified = [] }

table_after-Inv :
    (q : Tasks) (r : Option (Tasks × Bool))
    → Inv q
    → WhenSome (λ x. Inv x.0) r
    → Inv (table_after q r)
table_after-Inv q none inv h = inv
table_after-Inv q (some r) inv h = h

pub step-Inv : (q : Tasks) (s : Query) → Inv q → Inv (step q s)
unfolding step
step-Inv q (enqueues input now) inv = enqueue-Inv input now q inv
step-Inv q (dequeues input now locked) inv = dequeue-Inv input now locked q inv
step-Inv q (heartbeats ids worker lease_seconds now) inv =
    heartbeat-Inv ids worker lease_seconds now q inv
step-Inv q (completes i worker) inv = complete-Inv i worker q inv
step-Inv q (fails input options now) inv =
    table_after-Inv q _ inv (fail-Inv input options now q inv)
step-Inv q (reclaims limit now locked) inv = reclaim_expired-Inv limit now locked q inv
step-Inv q (requeues i now) inv = table_after-Inv q _ inv (requeue_dead_task-Inv i now q inv)

pub steps-Inv : (q : Tasks) (ss : List Query) → Inv q → Inv (steps q ss)
unfolding steps
steps-Inv q [] inv = inv
steps-Inv q (s ∷ ss) inv = steps-Inv (step q s) ss (step-Inv q s inv)

-- After any queries on an empty table, ids ascend and are below the next one, a leased task has an
-- owner, a deadline and an attempt, a completed task has an owner, a pending or dead task has
-- neither owner nor deadline, and no workflow has two live workflow tasks.
pub reachable-Inv : (ss : List Query) → Inv (steps empty ss)
reachable-Inv ss =
    steps-Inv empty ss
      (record { ids = omega arith; leases = tt; one_workflow_task = λ wf. omega arith })
