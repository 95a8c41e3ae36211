-- ===== src/Queue/Preserve.antt =====
-- The queries of queue.ts and the invariant of the `tasks` table.
use karya_kram.Base.{
  ℕ, ◌+◌, ◌≡◌, refl, String, Bool, true, false, Option, none, some, List, [], ◌∷◌, ◌++◌, arith,
  select, any, All, All-of, All-map, All-append, select-append, length-append, select-none, subst,
  eq_iff, Bool-cases, Option-cases, inl, inr, ◌&&◌,
}
use karya_kram.Llm.{get_or}
use karya_kram.Queue.Task.{workflow, same_type, Task, Tasks, update_where}
use karya_kram.Queue.Backoff.{RetryDelayOptions, compute_retry_delay_with_floor}
use karya_kram.Queue.Ops.{
  EnqueueInput, DequeueInput, FailInput, new_task, is_live_workflow_task, is_candidate, is_expired,
  has_id, lease, reclaim, record_failure, is_held, holds_any, candidates, expired_rows, enqueue,
  dequeue, heartbeat, complete, fail_after, fail, reclaim_expired,
}
use karya_kram.Queue.Invariant.{
  Inv, Fits, Ascending-push, Ascending-suc, Ascending-update_where, All-update_where,
  count_where-update_where,
}
use karya_kram.Queue.Chosen.{picked-passes}

-- An update that keeps the ids, the form of the leases, and the workflows' live tasks to those that
-- were live, keeps the invariant.
update-Inv :
    (q : Tasks) (p : Task → Bool) (f : Task → Task)
    → Inv q
    → ((t : Task) → (f t).id ≡ t.id)
    → All (λ t. p t ≡ true → Fits t → Fits (f t)) q.rows
    → ((wf : String)
        → All
            (λ t.
              p t ≡ true
              → is_live_workflow_task wf (f t) ≡ true
              → is_live_workflow_task wf t ≡ true)
            q.rows)
    → Inv (record q { rows = update_where p f q.rows })
update-Inv q p f inv same fits live = record {
  ids = Ascending-update_where p f same 0 q.next_id q.rows inv.ids;
  leases = All-update_where p f Fits q.rows inv.leases fits;
  one_workflow_task = λ wf. omega (
    arith,
    inv.one_workflow_task wf,
    count_where-update_where p f (is_live_workflow_task wf) q.rows (live wf),
  );
}

-- Both conditions from the row and the test that it passes.
update_each-Inv :
    (q : Tasks) (p : Task → Bool) (f : Task → Task)
    → Inv q
    → ((t : Task) → (f t).id ≡ t.id)
    → ((t : Task) → p t ≡ true → Fits t → Fits (f t))
    → ((t : Task) (wf : String)
        → p t ≡ true
        → is_live_workflow_task wf (f t) ≡ true
        → is_live_workflow_task wf t ≡ true)
    → Inv (record q { rows = update_where p f q.rows })
update_each-Inv q p f inv same fits live =
    update-Inv q p f inv same (All-of fits q.rows) (λ wf. All-of (λ t. live t wf) q.rows)

pub heartbeat-Inv :
    (ids : List ℕ) (w : String) (lease_seconds now : ℕ) (q : Tasks)
    → Inv q
    → Inv (heartbeat ids w lease_seconds now q).0
unfolding heartbeat
heartbeat-Inv ids w lease_seconds now q inv =
    update_each-Inv q (holds_any ids w) _ inv (λ t. refl) (λ t e h. ground arith) (λ t wf e h. h)

pub complete-Inv : (i : ℕ) (w : String) (q : Tasks) → Inv q → Inv (complete i w q).0
unfolding complete
complete-Inv i w q inv =
    update_each-Inv q (is_held i w) _ inv (λ t. refl) (λ t e h. ground arith)
      (λ t wf e h. ground arith)

fail_after-Inv :
    (input : FailInput) (delay now : ℕ) (q : Tasks) → Inv q → Inv (fail_after input delay now q).0
unfolding fail_after
fail_after-Inv input delay now q inv =
    update_each-Inv q (is_held input.task_id input.worker_id) (record_failure input.error now delay)
      inv (λ t. refl) (λ t e h. ground arith) (λ t wf e h. ground arith)

-- What holds of a result, where there is one.
abbrev pub WhenSome {ℓ κ} : {A : Type ℓ} → (A → Type κ) → Option A → Type κ
WhenSome P none = Unit
WhenSome P (some a) = P a

pub fail-Inv :
    (input : FailInput) (o : RetryDelayOptions) (now : ℕ) (q : Tasks)
    → Inv q
    → WhenSome (λ r. Inv r.0) (fail input o now q)
unfolding fail
fail-Inv input o now q inv =
    elim (Option-cases (compute_retry_delay_with_floor input.attempt input.min_delay o)) [
      | inl e ↦ rw (e, fail) tt
      | inr (delay, e) ↦ rw (e, fail) (fail_after-Inv input delay now q inv)
    ]

-- The rows picked by `dequeue` were pending, and so as live as they are once leased.
pub dequeue-Inv :
    (input : DequeueInput) (now : ℕ) (locked : ℕ → Bool) (q : Tasks)
    → Inv q
    → Inv (dequeue input now locked q).0
unfolding dequeue
dequeue-Inv input now locked q inv =
    let picked =
      picked-passes input.limit (λ t. t.run_after) (is_candidate input now locked) 0 q.next_id
        q.rows inv.ids in
    update-Inv q (λ t. has_id (candidates input now locked q.rows) t.id) (lease input now) inv
      (λ t. refl) (All-of (λ t e h. ground arith) q.rows)
      (λ wf. All-map (λ t pick e live. ground (arith, pick e)) q.rows picked)

pub reclaim_expired-Inv :
    (limit now : ℕ) (locked : ℕ → Bool) (q : Tasks)
    → Inv q
    → Inv (reclaim_expired limit now locked q).0
unfolding reclaim_expired
reclaim_expired-Inv limit now locked q inv =
    let picked =
      picked-passes limit (λ t. get_or 0 t.lease_expires_at) (is_expired now locked) 0 q.next_id
        q.rows inv.ids in
    update-Inv q (λ t. has_id (expired_rows limit now locked q.rows) t.id) reclaim inv (λ t. refl)
      (All-of (λ t e h. ground arith) q.rows)
      (λ wf. All-map (λ t pick e live. ground (arith, pick e)) q.rows picked)

-- A row added at the end, live as a workflow task only where no other is.
push-Inv :
    (t : Task) (q : Tasks) (names : List String)
    → Inv q
    → t.id ≡ q.next_id
    → Fits t
    → ((wf : String)
        → is_live_workflow_task wf t ≡ true
        → any (is_live_workflow_task wf) q.rows ≡ false)
    → Inv (record { rows = q.rows ++ t ∷ []; next_id = q.next_id + 1; notified = names })
push-Inv t q names inv e fits new = record {
  ids = Ascending-push 0 q.next_id q.rows t e inv.ids;
  leases = All-append Fits q.rows (t ∷ []) inv.leases (fits, tt);
  one_workflow_task = λ wf. rw (select-append (is_live_workflow_task wf) q.rows (t ∷ [])) (
      rw
        (length-append (select (is_live_workflow_task wf) q.rows)
          (select (is_live_workflow_task wf) (t ∷ [])))
        (ground (
          arith,
          inv.one_workflow_task wf,
          new wf,
          select-none (is_live_workflow_task wf) q.rows,
        )));
}

abbrev is_refused : EnqueueInput → Tasks → Bool
is_refused input q =
    same_type input.task_type workflow && any (is_live_workflow_task input.workflow_id) q.rows

-- A task that is not refused is live only for its own workflow, which has no live task.
accepted-new :
    (input : EnqueueInput) (now id : ℕ) (q : Tasks) (wf : String)
    → is_refused input q ≡ false
    → is_live_workflow_task wf (new_task input id now) ≡ true
    → any (is_live_workflow_task wf) q.rows ≡ false
accepted-new input now id q wf free live =
    let e : input.workflow_id ≡ wf = ground (arith, eq_iff input.workflow_id wf) in
    subst (λ w. any (is_live_workflow_task w) q.rows ≡ false) e (ground arith)

pub enqueue-Inv : (input : EnqueueInput) (now : ℕ) (q : Tasks) → Inv q → Inv (enqueue input now q).0
unfolding enqueue
enqueue-Inv input now q inv = elim (Bool-cases (is_refused input q)) [
  | inl e ↦
      rw (e, enqueue)
        (record {
          ids = Ascending-suc 0 q.next_id q.rows inv.ids;
          leases = inv.leases;
          one_workflow_task = inv.one_workflow_task;
        })
  | inr e ↦
      rw (e, enqueue)
        (push-Inv (new_task input q.next_id now) q _ inv refl refl
          (λ wf. accepted-new input now q.next_id q wf e))
]
