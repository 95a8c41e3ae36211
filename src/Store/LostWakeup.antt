-- ===== src/Store/LostWakeup.antt =====
-- An append while the workflow's task is leased, and the completion of that task (eventStore.ts, lines
-- 125 to 128, and queue.ts, `enqueue` and `complete`).
use karya_kram.Base.{
  ℕ, ◌+◌, ◌≤◌, ◌≡◌, refl, String, Bool, true, false, ◌&&◌, Option, some, List, [], ◌∷◌, ◌++◌, arith,
  any, map, text_eq,
}
use karya_kram.Base.Dict.{get}
use karya_kram.Workflow.Events.{WorkflowEventPayload}
use karya_kram.Workflow.State.{WorkflowStatus}
use karya_kram.Queue.Task.{Task, Tasks, completed, update_where, count_where}
use karya_kram.Queue.Ops.{complete, is_held, is_live_workflow_task}
use karya_kram.Queue.Invariant.{Inv}
use karya_kram.Store.Column.{as_written}
use karya_kram.Store.Events.{Db, get_events, AppendEventsResult, append_events}
use karya_kram.Store.Appended.{WellFormed}
use karya_kram.Store.Append.{append-Appended}

-- The leased workflow task of the workflow.
abbrev pub is_held_live : String → ℕ → String → Task → Bool
is_held_live wf i worker t = is_live_workflow_task wf t && is_held i worker t

none_live : (p : Task → Bool) (ts : List Task) → count_where p ts ≡ 0 → any p ts ≡ false
none_live p [] h = refl
none_live p (t ∷ ts) h = ground (arith, none_live p ts)

some_held : (p : Task → Bool) (ts : List Task) → any p ts ≡ true → 1 ≤ count_where p ts
some_held p [] h = cc
some_held p (t ∷ ts) h = ground (arith, some_held p ts)

-- Completing takes the held task away from the live ones.
complete-count :
    (wf : String) (i : ℕ) (worker : String) (ts : List Task)
    → count_where
          (is_live_workflow_task wf)
          (update_where (is_held i worker) (λ t. record t { status = completed }) ts)
        + count_where (is_held_live wf i worker) ts
      ≤ count_where (is_live_workflow_task wf) ts
complete-count wf i worker [] = omega arith
complete-count wf i worker (t ∷ ts) = ground (arith, complete-count wf i worker ts)

complete-none_live :
    (wf : String) (i : ℕ) (worker : String) (q : Tasks)
    → Inv q
    → any (is_held_live wf i worker) q.rows ≡ true
    → any (is_live_workflow_task wf) (complete i worker q).0.rows ≡ false
unfolding complete
complete-none_live wf i worker q inv held =
    none_live (is_live_workflow_task wf) (complete i worker q).0.rows (
      omega (
        arith,
        complete-count wf i worker q.rows,
        inv.one_workflow_task wf,
        some_held (is_held_live wf i worker) q.rows held,
      ))

-- On well-formed tables where a worker holds the lease of the workflow's workflow task, an append
-- to the workflow succeeds, and once the worker completes that task the workflow has the new
-- events, as JSON writes them, in its history and no live workflow task.
pub lost_wakeup :
    (now : ℕ) (trace : Option String) (wf : String) (e : WorkflowEventPayload)
    (es : List WorkflowEventPayload) (s : WorkflowStatus) (i : ℕ) (worker : String) (db : Db)
    → WellFormed db
    → get wf db.executions ≡ some s
    → any (is_held_live wf i worker) db.tasks.rows ≡ true
    → (r : Db × AppendEventsResult) × (append_events now trace
          (record { workflow_id = wf; events = e ∷ es })
          db
        ≡ some r)
      × (get_events wf r.0 ≡ get_events wf db ++ map as_written r.1.stored_events)
      × (map (λ x. x.event) r.1.stored_events ≡ e ∷ es)
      × (any (is_live_workflow_task wf) (complete i worker r.0.tasks).0.rows ≡ false)
lost_wakeup now trace wf e es s i worker db ok row held =
    let (r, same, appended) = append-Appended now trace wf e es s db ok row in
    (
      r,
      same,
      appended.history,
      appended.payloads,
      complete-none_live wf i worker r.0.tasks appended.well_formed.tasks
          (appended.kept (is_held_live wf i worker) held),
    )
