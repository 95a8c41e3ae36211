-- ===== src/Store/Events.antt =====
-- packages/db/src/eventStore.ts, and the tables `workflow_executions` and `workflow_events`.
-- A transaction that holds the execution's row lock is one step; an error leaves the tables as they were.
use karya_kram.Base.{
  ℕ, suc, ◌+◌, max, String, Option, none, some, List, [], ◌∷◌, ◌++◌, map, ltb, leb, ◌==◌, number_eq,
  text_eq, select, if◌then◌else◌,
}
use karya_kram.Base.Dict.{Dict, get, put}
use karya_kram.Json.{Value}
use karya_kram.Workflow.Events.{
  WorkflowEventPayload, StoredWorkflowEvent, activity_scheduled, llm_requested, tool_requested,
  timer_scheduled,
}
use karya_kram.Store.Column.{as_written}
use karya_kram.Workflow.State.{WorkflowStatus, WorkflowState, fold_events}
use karya_kram.Queue.Task.{TaskType, Tasks}
use karya_kram.Queue.Ops.{EnqueueInput, enqueue}

pub record EventRow : Type 0 where
  pub workflow_id : String
  pub stored : StoredWorkflowEvent

-- A row of the `tool_executions` ledger.
pub record LedgerRow : Type 0 where
  pub workflow_id : String
  pub step_id : String
  pub tool : String
  pub args_hash : String
  pub result : Option Value

-- The rows that one run of a tool wrote through its transaction, each a kind and a payload.
pub record EffectBatch : Type 0 where
  pub workflow_id : String
  pub step_id : String
  pub effects : List (String × Value)

-- The tables: the status cache of each execution, the event rows in the order of their insertion, the
-- queue, the tool ledger, and what the tools wrote.
pub record Db : Type 0 where
  pub executions : Dict String WorkflowStatus
  pub events : List EventRow
  pub tasks : Tasks
  pub ledger : List LedgerRow
  pub effects : List EffectBatch

-- The rows of one workflow.
unfoldable pub rows_of : String → List EventRow → List StoredWorkflowEvent
rows_of wf rows = map (λ r. r.stored) (select (λ r. r.workflow_id == wf) rows)

-- ORDER BY seq
unfoldable pub insert_seq :
    StoredWorkflowEvent → List StoredWorkflowEvent → List StoredWorkflowEvent
insert_seq e [] = e ∷ []
insert_seq e (x ∷ xs) =
    let rest = insert_seq e xs in if leb e.seq x.seq then e ∷ x ∷ xs else x ∷ rest

unfoldable pub order_by_seq : List StoredWorkflowEvent → List StoredWorkflowEvent
unfolding insert_seq
order_by_seq [] = []
order_by_seq (e ∷ es) = insert_seq e (order_by_seq es)

unfoldable pub get_events : String → Db → List StoredWorkflowEvent
unfolding rows_of order_by_seq
get_events wf db = order_by_seq (rows_of wf db.events)

unfoldable pub get_events_since : String → ℕ → Db → List StoredWorkflowEvent
unfolding rows_of order_by_seq
get_events_since wf since_seq db =
    order_by_seq (select (λ e. ltb since_seq e.seq) (rows_of wf db.events))

-- SELECT MAX(seq)
unfoldable pub max_seq : List StoredWorkflowEvent → Option ℕ
max_seq [] = none
max_seq (e ∷ es) = elim (max_seq es) [ none ↦ some e.seq | some m ↦ some (max e.seq m) ]

abbrev pub start_seq : Option ℕ → ℕ
start_seq none = 1
start_seq (some m) = m + 1

-- `events.map((event, i) => ({ seq: startSeq + i, event }))`
unfoldable pub number_from : ℕ → List WorkflowEventPayload → List StoredWorkflowEvent
number_from n [] = []
number_from n (e ∷ es) = record { seq = n; event = e } ∷ number_from (suc n) es

abbrev pub workflow_task : String → Option String → EnqueueInput
workflow_task wf trace = record {
  task_type = TaskType.workflow;
  workflow_id = wf;
  queue = none;
  scheduled_event_seq = none;
  run_after = none;
  max_attempts = none;
  trace_context = trace;
}

abbrev pub step_task : TaskType → String → ℕ → Option String → EnqueueInput
step_task type wf seq trace = record (workflow_task wf trace) {
  task_type = type;
  scheduled_event_seq = some seq;
}

-- The task that an event implies, if it schedules a step.
abbrev pub implied_task : String → Option String → StoredWorkflowEvent → Option EnqueueInput
implied_task wf trace e = elim e.event [
  | activity_scheduled _ _ ↦ some (step_task TaskType.activity wf e.seq trace)
  | llm_requested r ↦
      some (record (step_task TaskType.llm wf e.seq trace) { max_attempts = some r.max_attempts })
  | tool_requested r ↦
      some (record (step_task TaskType.tool wf e.seq trace) { max_attempts = some r.max_attempts })
  | timer_scheduled fire_at ↦
      some (record (step_task TaskType.timer wf e.seq trace) { run_after = some fire_at })
  | _ ↦ none
]

unfoldable pub enqueue_implied : Option EnqueueInput → ℕ → Tasks → Tasks
unfolding enqueue
enqueue_implied none now q = q
enqueue_implied (some input) now q = (enqueue input now q).0

unfoldable pub enqueue_all : String → Option String → ℕ → List StoredWorkflowEvent → Tasks → Tasks
unfolding enqueue_implied
enqueue_all wf trace now [] q = q
enqueue_all wf trace now (e ∷ es) q =
    enqueue_all wf trace now es (enqueue_implied (implied_task wf trace e) now q)

pub record AppendEventsInput : Type 0 where
  pub workflow_id : String
  pub events : List WorkflowEventPayload

pub record AppendEventsResult : Type 0 where
  pub stored_events : List StoredWorkflowEvent
  pub state : WorkflowState

-- The statements after the guards. The rows have the payloads as JSON.stringify writes them.
unfoldable pub append_rows :
    ℕ → Option String → AppendEventsInput → List StoredWorkflowEvent → Db → Db × AppendEventsResult
unfolding enqueue enqueue_all get_events fold_events put as_written
append_rows now trace input stored db =
    let wf = input.workflow_id in
    let inserted =
      db.events ++ map (λ e. record { workflow_id = wf; stored = e }) (map as_written stored) in
    let tasks =
      (enqueue (workflow_task wf trace) now (enqueue_all wf trace now stored db.tasks)).0 in
    let next = record db { events = inserted; tasks = tasks } in
    let state = fold_events (get_events wf next) in
    (
      record next { executions = put wf state.status db.executions },
      record { stored_events = stored; state = state },
    )

-- `none` is the error thrown for no events, or for a workflow without an execution row.
unfoldable pub append_events :
    ℕ → Option String → AppendEventsInput → Db → Option (Db × AppendEventsResult)
unfolding append_rows get max_seq rows_of number_from
append_events now trace input db = elim input.events [
  | [] ↦ none
  | _ ∷ _ ↦ elim (get input.workflow_id db.executions) [
    | none ↦ none
    | some _ ↦ some (
        append_rows now trace input
          (number_from (start_seq (max_seq (rows_of input.workflow_id db.events))) input.events) db)
  ]
]
