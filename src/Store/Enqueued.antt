-- ===== src/Store/Enqueued.antt =====
-- The tasks that `appendEvents` enqueues (eventStore.ts, lines 82 to 128).
use karya_kram.Base.{
  ℕ, ◌≡◌, refl, String, Bool, true, false, Option, none, some, List, [], ◌∷◌, arith, any,
  any-append, nat_beq, All, ◌==◌, text_eq, beq_refl, ◌&&◌,
}
use karya_kram.Llm.{get_or}
use karya_kram.Workflow.Events.{
  activity_scheduled, llm_requested, tool_requested, timer_scheduled, WorkflowEventPayload,
  StoredWorkflowEvent,
}
use karya_kram.Queue.Task.{TaskType, Task, Tasks, rank, same_type, is_pending}
use karya_kram.Queue.Ops.{EnqueueInput, enqueue, new_task, is_live_workflow_task}
use karya_kram.Queue.Invariant.{Inv}
use karya_kram.Queue.Preserve.{enqueue-Inv}
use karya_kram.Store.Events.{workflow_task, implied_task, enqueue_implied, enqueue_all}

-- The queue after the tasks that a transaction enqueues.
enqueue_implied-Inv :
    (o : Option EnqueueInput) (now : ℕ) (q : Tasks) → Inv q → Inv (enqueue_implied o now q)
unfolding enqueue_implied
enqueue_implied-Inv none now q inv = inv
enqueue_implied-Inv (some input) now q inv = enqueue-Inv input now q inv

pub enqueue_all-Inv :
    (wf : String) (trace : Option String) (now : ℕ) (es : List StoredWorkflowEvent) (q : Tasks)
    → Inv q
    → Inv (enqueue_all wf trace now es q)
unfolding enqueue_all
enqueue_all-Inv wf trace now [] q inv = inv
enqueue_all-Inv wf trace now (e ∷ es) q inv =
    enqueue_all-Inv wf trace now es _ (enqueue_implied-Inv (implied_task wf trace e) now q inv)

-- No row is taken away or changed.
pub enqueue-any :
    (p : Task → Bool) (input : EnqueueInput) (now : ℕ) (q : Tasks)
    → any p q.rows ≡ true
    → any p (enqueue input now q).0.rows ≡ true
unfolding enqueue
enqueue-any p input now q h =
    ground (arith, any-append p q.rows (new_task input q.next_id now ∷ []))

enqueue_implied-any :
    (p : Task → Bool) (o : Option EnqueueInput) (now : ℕ) (q : Tasks)
    → any p q.rows ≡ true
    → any p (enqueue_implied o now q).rows ≡ true
unfolding enqueue_implied
enqueue_implied-any p none now q h = h
enqueue_implied-any p (some input) now q h = enqueue-any p input now q h

pub enqueue_all-any :
    (p : Task → Bool) (wf : String) (trace : Option String) (now : ℕ)
    (es : List StoredWorkflowEvent) (q : Tasks)
    → any p q.rows ≡ true
    → any p (enqueue_all wf trace now es q).rows ≡ true
unfolding enqueue_all
enqueue_all-any p wf trace now [] q h = h
enqueue_all-any p wf trace now (e ∷ es) q h =
    enqueue_all-any p wf trace now es _ (enqueue_implied-any p (implied_task wf trace e) now q h)

abbrev same_seq : Option ℕ → Option ℕ → Bool
same_seq none none = true
same_seq (some a) (some b) = nat_beq a b
same_seq _ _ = false

-- A pending task with what the input asks for.
abbrev pub is_task_of : ℕ → EnqueueInput → Task → Bool
is_task_of now input t =
    nat_beq (rank t.task_type) (rank input.task_type)
    && t.workflow_id == input.workflow_id
    && same_seq t.scheduled_event_seq input.scheduled_event_seq
    && is_pending t.status
    && nat_beq t.run_after (get_or now input.run_after)
    && nat_beq t.max_attempts (get_or 3 input.max_attempts)

nat_beq_refl : (n : ℕ) → nat_beq n n ≡ true
nat_beq_refl n = ground arith

same_seq_refl : (o : Option ℕ) → same_seq o o ≡ true
same_seq_refl none = refl
same_seq_refl (some n) = nat_beq_refl n

new_task-is_task_of :
    (input : EnqueueInput) (id now : ℕ) → is_task_of now input (new_task input id now) ≡ true
new_task-is_task_of input id now =
    rw
      (
        nat_beq_refl (rank input.task_type),
        beq_refl input.workflow_id,
        same_seq_refl input.scheduled_event_seq,
        nat_beq_refl (get_or now input.run_after),
        nat_beq_refl (get_or 3 input.max_attempts),
      )
      refl

-- A step's task is always inserted: the unique index is for workflow tasks alone.
enqueue-is_task_of :
    (input : EnqueueInput) (now : ℕ) (q : Tasks)
    → same_type input.task_type TaskType.workflow ≡ false
    → any (is_task_of now input) (enqueue input now q).0.rows ≡ true
unfolding enqueue
enqueue-is_task_of input now q step = ground (
  arith,
  any-append (is_task_of now input) q.rows (new_task input q.next_id now ∷ []),
  new_task-is_task_of input q.next_id now,
)

-- The step that an event schedules has its task.
abbrev pub HasTask : ℕ → Option EnqueueInput → Tasks → Type 0
HasTask now none q = Unit
HasTask now (some input) q = any (is_task_of now input) q.rows ≡ true

implied_task-is_step :
    (wf : String) (trace : Option String) (e : StoredWorkflowEvent) (input : EnqueueInput)
    → implied_task wf trace e ≡ some input
    → same_type input.task_type TaskType.workflow ≡ false
implied_task-is_step wf trace e input h = split e.event h
  where
    split :
        (p : WorkflowEventPayload)
        → implied_task wf trace (record { seq = e.seq; event = p }) ≡ some input
        → same_type input.task_type TaskType.workflow ≡ false
    split (activity_scheduled type i) h = ground arith
    split (llm_requested r) h = ground arith
    split (tool_requested r) h = ground arith
    split (timer_scheduled at) h = ground arith
    split _ h = ground arith

pub enqueue_all-HasTask :
    (wf : String) (trace : Option String) (now : ℕ) (es : List StoredWorkflowEvent) (q : Tasks)
    → All (λ e. HasTask now (implied_task wf trace e) (enqueue_all wf trace now es q)) es
unfolding enqueue_all
enqueue_all-HasTask wf trace now [] q = tt
enqueue_all-HasTask wf trace now (e ∷ es) q = (
  first (implied_task wf trace e) refl,
  enqueue_all-HasTask wf trace now es (enqueue_implied (implied_task wf trace e) now q),
)
  where
    first :
        (o : Option EnqueueInput)
        → implied_task wf trace e ≡ o
        → HasTask now o
            (enqueue_all wf trace now es (enqueue_implied (implied_task wf trace e) now q))
    first none h = tt
    first (some input) h = enqueue_all-any (is_task_of now input) wf trace now es _ (
        rw h (
          unfold enqueue_implied in
          enqueue-is_task_of input now q (implied_task-is_step wf trace e input h)))

-- The workflow has a live workflow task, whether the one enqueued or the one that stood before.
pub enqueue-wakes :
    (wf : String) (trace : Option String) (now : ℕ) (q : Tasks)
    → any (is_live_workflow_task wf) (enqueue (workflow_task wf trace) now q).0.rows ≡ true
unfolding enqueue
enqueue-wakes wf trace now q = ground (
  arith,
  any-append (is_live_workflow_task wf) q.rows
      (new_task (workflow_task wf trace) q.next_id now ∷ []),
  beq_refl wf,
)

pub HasTask-any :
    (wf : String) (trace : Option String) (now : ℕ) (o : Option EnqueueInput) (q : Tasks)
    → HasTask now o q
    → HasTask now o (enqueue (workflow_task wf trace) now q).0
HasTask-any wf trace now none q h = tt
HasTask-any wf trace now (some input) q h =
    enqueue-any (is_task_of now input) (workflow_task wf trace) now q h

-- A row that was there before an append is there after it.
pub enqueue_rows-any :
    (p : Task → Bool) (wf : String) (trace : Option String) (now : ℕ)
    (es : List StoredWorkflowEvent) (q : Tasks)
    → any p q.rows ≡ true
    → any p (enqueue (workflow_task wf trace) now (enqueue_all wf trace now es q)).0.rows ≡ true
enqueue_rows-any p wf trace now es q h =
    enqueue-any p (workflow_task wf trace) now _ (enqueue_all-any p wf trace now es q h)
