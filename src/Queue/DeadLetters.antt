-- ===== src/Queue/DeadLetters.antt =====
-- packages/db/src/dlq.ts: the dead-letter queue, the rows whose status is `dead`.
use karya_kram.Base.{
  ℕ, String, Bool, true, ◌&&◌, Option, none, some, List, reverse, nat_beq, ◌==◌, number_eq, text_eq,
  select, take, any, if◌then◌else◌,
}
use karya_kram.Queue.Task.{workflow, pending, Task, Tasks, same_type, is_dead, update_where}
use karya_kram.Queue.Ops.{is_live_workflow_task, order_by}

abbrev queue_matches : Option String → String → Bool
queue_matches none name = true
queue_matches (some wanted) name = name == wanted

-- The dead-letter queue: newest first; `reverse` puts the later of two rows of one instant first.
unfoldable pub list_dead_tasks : Option String → ℕ → Tasks → List Task
unfolding order_by
list_dead_tasks queue limit q = take limit (
    reverse (
      order_by (λ t. t.created_at)
        (select (λ t. is_dead t.status && queue_matches queue t.queue) q.rows)))

-- `none` is the violation of `one_workflow_task_per_wf`: another task of the workflow is live.
abbrev pub is_dead_task : ℕ → Task → Bool
is_dead_task i t = nat_beq t.id i && is_dead t.status

abbrev pub requeue : ℕ → Task → Task
requeue now t = record t { status = pending; attempt = 0; run_after = now; last_error = none }

-- A workflow task that would stand beside a live one of its workflow.
abbrev pub conflicts : List Task → Task → Bool
conflicts rows t = same_type t.task_type workflow && any (is_live_workflow_task t.workflow_id) rows

unfoldable pub requeue_dead_task : ℕ → ℕ → Tasks → Option (Tasks × Bool)
requeue_dead_task i now q =
    if any (λ t. is_dead_task i t && conflicts q.rows t) q.rows
    then none
    else some (
      record q { rows = update_where (is_dead_task i) (requeue now) q.rows },
      any (is_dead_task i) q.rows,
    )
