-- ===== src/Queue/Fencing.antt =====
-- The fencing token of a lease, its task, worker and attempt (queue.ts, `isLeaseOwned`).
use native.Mathlib.Nat.{le_refl}
use karya_kram.Base.{
  ℕ, suc, ◌+◌, ◌*◌, ◌≤◌, ◌<◌, ◌≡◌, ◌≢◌, refl, String, Bool, true, false, not, ◌&&◌, ◌||◌, some,
  List, [], ◌∷◌, arith, nat_beq, leb, any, any-All, any-elim, All, All-of, All-map, All-map₂,
  All-append, Bool-cases, Option-cases, inl, inr,
}
use karya_kram.Queue.Task.{completed, Task, Tasks, update_where}
use karya_kram.Queue.Backoff.{RetryDelayOptions, compute_retry_delay_with_floor}
use karya_kram.Queue.Ops.{
  EnqueueInput, DequeueInput, FailInput, LeaseFence, is_fenced, is_lease_owned, new_task, lease,
  has_id, candidates, expired_rows, reclaim, record_failure, is_held, holds_any, enqueue,
  fail_after, fail,
}
use karya_kram.Queue.DeadLetters.{is_dead_task, requeue, conflicts, requeue_dead_task}
use karya_kram.Queue.Invariant.{Inv, Ascending, Ascending-above, All-update_where}
use karya_kram.Queue.Steps.{
  Query, table_after, enqueues, dequeues, heartbeats, completes, fails, reclaims, requeues, step,
  steps,
}

-- The task of the fence has been dequeued at least as often as the fence says.
abbrev seen : LeaseFence → Task → Bool
seen f t = not (nat_beq t.id f.task_id) || leb f.attempt t.attempt

-- And the fence's lease on it has ended.
abbrev lost : LeaseFence → Task → Bool
lost f t = seen f t && not (is_fenced f t)

-- A test of rows that no query but a requeue of the fence's task takes from true to false.
record IsStable (f : LeaseFence) (r : Task → Bool) : Type 0 where
  at_other : (t : Task) → nat_beq t.id f.task_id ≡ false → r t ≡ true
  at_lease : (input : DequeueInput) (now : ℕ) (t : Task) → r t ≡ true → r (lease input now t) ≡ true
  at_heartbeat : (x : ℕ) (t : Task) → r t ≡ true → r (record t { lease_expires_at = some x }) ≡ true
  at_complete : (t : Task) → r t ≡ true → r (record t { status = completed }) ≡ true
  at_failure :
      (error : String) (now delay : ℕ) (t : Task)
      → r t ≡ true
      → r (record_failure error now delay t) ≡ true
  at_reclaim : (t : Task) → r t ≡ true → r (reclaim t) ≡ true

seen-IsStable : (f : LeaseFence) → IsStable f (seen f)
seen-IsStable f = record {
  at_other = λ t e. ground arith;
  at_lease = λ input now t h. ground arith;
  at_heartbeat = λ x t h. h;
  at_complete = λ t h. h;
  at_failure = λ error now delay t h. h;
  at_reclaim = λ t h. h;
}

lost-IsStable : (f : LeaseFence) → IsStable f (lost f)
lost-IsStable f = record {
  at_other = λ t e. ground arith;
  at_lease = λ input now t h. ground arith;
  at_heartbeat = λ x t h. ground arith;
  at_complete = λ t h. ground arith;
  at_failure = λ error now delay t h. ground arith;
  at_reclaim = λ t h. ground arith;
}

-- Not an operator's requeue of the task.
abbrev pub Spares : ℕ → Query → Type 0
Spares i (requeues j now) = j ≢ i
Spares i (completes j worker) = Unit
Spares i _ = Unit

module _ (f : LeaseFence) (r : Task → Bool) (stable : IsStable f r) where
  abbrev Holds : Tasks → Type 0
  Holds q = (f.task_id < q.next_id) × All (λ t. r t ≡ true) q.rows

  update-Holds :
      (q : Tasks) (p : Task → Bool) (g : Task → Task)
      → ((t : Task) → p t ≡ true → r t ≡ true → r (g t) ≡ true)
      → Holds q
      → Holds (record q { rows = update_where p g q.rows })
  update-Holds q p g keep h =
      (h.0, All-update_where p g (λ t. r t ≡ true) q.rows h.1 (All-of keep q.rows))

  enqueue-Holds :
      (input : EnqueueInput) (now : ℕ) (q : Tasks) → Holds q → Holds (enqueue input now q).0
  unfolding enqueue
  enqueue-Holds input now q h =
      let other : nat_beq q.next_id f.task_id ≡ false = ground (arith, h.0) in
      let pushed =
        All-append (λ t. r t ≡ true) q.rows (new_task input q.next_id now ∷ []) h.1
          (stable.at_other (new_task input q.next_id now) other, tt) in
      ground (arith, h.0, h.1, pushed)

  fail-Holds :
      (input : FailInput) (o : RetryDelayOptions) (now : ℕ) (q : Tasks)
      → Holds q
      → Holds (table_after q (fail input o now q))
  unfolding fail fail_after
  fail-Holds input o now q h =
      elim (Option-cases (compute_retry_delay_with_floor input.attempt input.min_delay o)) [
        | inl e ↦ rw (e, fail) h
        | inr (delay, e) ↦
            rw (e, fail)
              (update-Holds q (is_held input.task_id input.worker_id)
                (record_failure input.error now delay)
                (λ t p. stable.at_failure input.error now delay t) h)
      ]

  requeue_dead_task-Holds :
      (i now : ℕ) (q : Tasks)
      → i ≢ f.task_id
      → Holds q
      → Holds (table_after q (requeue_dead_task i now q))
  unfolding requeue_dead_task
  requeue_dead_task-Holds i now q other h =
      elim (Bool-cases (any (λ t. is_dead_task i t && conflicts q.rows t) q.rows)) [
        | inl e ↦ rw (e, requeue_dead_task) h
        | inr e ↦
            rw (e, requeue_dead_task)
              (update-Holds q (is_dead_task i) (requeue now)
                (λ t p holds. stable.at_other (requeue now t) (ground arith)) h)
      ]

  step-Holds : (q : Tasks) (s : Query) → Spares f.task_id s → Holds q → Holds (step q s)
  unfolding step
  step-Holds q (enqueues input now) spares h = enqueue-Holds input now q h
  step-Holds q (dequeues input now locked) spares h =
      update-Holds q (λ t. has_id (candidates input now locked q.rows) t.id) (lease input now)
        (λ t p. stable.at_lease input now t) h
  step-Holds q (heartbeats ids worker lease_seconds now) spares h =
      update-Holds q (holds_any ids worker) _
        (λ t p. stable.at_heartbeat (now + lease_seconds * 1000) t) h
  step-Holds q (completes i worker) spares h =
      update-Holds q (is_held i worker) _ (λ t p. stable.at_complete t) h
  step-Holds q (fails input o now) spares h = fail-Holds input o now q h
  step-Holds q (reclaims limit now locked) spares h =
      update-Holds q (λ t. has_id (expired_rows limit now locked q.rows) t.id) reclaim
        (λ t p. stable.at_reclaim t) h
  step-Holds q (requeues i now) spares h = requeue_dead_task-Holds i now q spares h

  steps-Holds :
      (q : Tasks) (ss : List Query) → All (Spares f.task_id) ss → Holds q → Holds (steps q ss)
  unfolding steps
  steps-Holds q [] spares h = h
  steps-Holds q (s ∷ ss) spares h = steps-Holds (step q s) ss spares.1 (step-Holds q s spares.0 h)

-- A row that carries the fence's lease lies in the range of the ids.
fenced-above :
    (f : LeaseFence) (lo hi : ℕ) (ts : List Task)
    → Ascending lo ts hi
    → any (is_fenced f) ts ≡ true
    → (lo ≤ f.task_id) × (f.task_id < hi)
fenced-above f lo hi ts h e =
    any-elim (is_fenced f) ts e
      (All-map (λ t range fenced. ground arith) ts (Ascending-above lo lo hi ts (le_refl lo) h))

-- Ids are distinct, so while the lease is owned no row has been dequeued less often than it says.
owned-seen :
    (f : LeaseFence) (lo hi : ℕ) (ts : List Task)
    → Ascending lo ts hi
    → any (is_fenced f) ts ≡ true
    → All (λ t. seen f t ≡ true) ts
owned-seen f lo hi [] h e = tt
owned-seen f lo hi (t ∷ ts) h e = elim (Bool-cases (is_fenced f t)) [
  | inl here ↦ (
    ground arith,
    All-map (λ u above. ground arith) ts
        (Ascending-above (suc t.id) (suc t.id) hi ts (le_refl (suc t.id)) h.1),
  )
  | inr not_here ↦
      (let rest : any (is_fenced f) ts ≡ true = ground arith in
        let above = fenced-above f (suc t.id) hi ts h.1 rest in
        (ground arith, owned-seen f (suc t.id) hi ts h.1 rest))
]

lost-not_owned :
    (f : LeaseFence) (ts : List Task) → All (λ t. lost f t ≡ true) ts → any (is_fenced f) ts ≡ false
lost-not_owned f [] h = refl
lost-not_owned f (t ∷ ts) h = ground (arith, lost-not_owned f ts h.1)

-- From a table where the queue's invariant holds and a fence's lease is owned, if the lease is not
-- owned after some queries then it is not owned after any further queries, by the same worker
-- either, as long as neither part requeues the fence's task from the dead-letter queue.
pub lost_lease :
    (f : LeaseFence) (q : Tasks) (before after : List Query)
    → Inv q
    → is_lease_owned f q ≡ true
    → All (Spares f.task_id) before
    → All (Spares f.task_id) after
    → is_lease_owned f (steps q before) ≡ false
    → is_lease_owned f (steps (steps q before) after) ≡ false
unfolding is_lease_owned
lost_lease f q before after inv owned spares spares' ended =
    let range = fenced-above f 0 q.next_id q.rows inv.ids owned in
    let held =
      steps-Holds f (seen f) (seen-IsStable f) q before spares
        (range.1, owned-seen f 0 q.next_id q.rows inv.ids owned) in
    let gone =
      All-map₂ (λ t s e. ground arith) (steps q before).rows held.1
        (any-All (is_fenced f) (steps q before).rows ended) in
    lost-not_owned f _
      (steps-Holds f (lost f) (lost-IsStable f) (steps q before) after spares' (held.0, gone)).1
