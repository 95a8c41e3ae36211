-- ===== src/Queue/Ops.antt =====
-- packages/db/src/queue.ts, lines 89 to 398: the queries of the task queue.
-- `locked` tells which rows another transaction holds, which SKIP LOCKED passes over.
use karya_kram.Base.{
  ℕ, ◌+◌, ◌*◌, String, Bool, true, false, not, ◌&&◌, ◌||◌, Option, none, some, List, [], ◌∷◌, ◌++◌,
  map, nat_beq, ltb, leb, ◌==◌, number_eq, text_eq, is_some_of, select, take, any, if◌then◌else◌,
}
use karya_kram.Llm.{get_or}
use karya_kram.Queue.Task.{
  TaskType, workflow, pending, leased, completed, dead, Task, Tasks, same_type, is_pending,
  is_leased, is_completed, is_dead, update_where, count_where,
}
use karya_kram.Queue.Backoff.{RetryDelayOptions, compute_retry_delay_with_floor}

pub record EnqueueInput : Type 0 where
  pub task_type : TaskType
  pub workflow_id : String
  pub queue : Option String
  pub scheduled_event_seq : Option ℕ
  pub run_after : Option ℕ
  pub max_attempts : Option ℕ
  pub trace_context : Option String

-- The rows of the partial unique index `one_workflow_task_per_wf`.
abbrev pub is_live_workflow_task : String → Task → Bool
is_live_workflow_task wf t =
    same_type t.task_type workflow
    && (is_pending t.status || is_leased t.status)
    && t.workflow_id == wf

abbrev pub new_task : EnqueueInput → ℕ → ℕ → Task
new_task input id now = record {
  id = id;
  task_type = input.task_type;
  workflow_id = input.workflow_id;
  queue = get_or "default" input.queue;
  scheduled_event_seq = input.scheduled_event_seq;
  status = pending;
  run_after = get_or now input.run_after;
  attempt = 0;
  max_attempts = get_or 3 input.max_attempts;
  last_error = none;
  leased_by = none;
  lease_expires_at = none;
  created_at = now;
  trace_context = input.trace_context;
}

-- A workflow task is not inserted beside a live one: the result is null, and an id is used up.
unfoldable pub enqueue : EnqueueInput → ℕ → Tasks → Tasks × Option Task
enqueue input now q =
    let t = new_task input q.next_id now in
    if same_type input.task_type workflow && any (is_live_workflow_task input.workflow_id) q.rows
    then (record q { next_id = q.next_id + 1 }, none)
    else (
      record q {
        rows = q.rows ++ t ∷ [];
        next_id = q.next_id + 1;
        notified = q.notified ++ t.queue ∷ [];
      },
      some t,
    )

pub record DequeueInput : Type 0 where
  pub worker_id : String
  pub queue : Option String
  pub task_type : Option TaskType
  pub limit : ℕ
  pub lease_seconds : ℕ

abbrev type_matches : Option TaskType → TaskType → Bool
type_matches none t = true
type_matches (some wanted) t = same_type t wanted

abbrev pub is_candidate : DequeueInput → ℕ → (ℕ → Bool) → Task → Bool
is_candidate input now locked t =
    is_pending t.status
    && t.queue == get_or "default" input.queue
    && leb t.run_after now
    && type_matches input.task_type t.task_type
    && not (locked t.id)

-- ORDER BY, by a key and then by id.
abbrev comes_first : (Task → ℕ) → Task → Task → Bool
comes_first key a b = ltb (key a) (key b) || nat_beq (key a) (key b) && leb a.id b.id

unfoldable pub insert_by : (Task → ℕ) → Task → List Task → List Task
insert_by key t [] = t ∷ []
insert_by key t (u ∷ us) =
    let rest = insert_by key t us in if comes_first key t u then t ∷ u ∷ us else u ∷ rest

unfoldable pub order_by : (Task → ℕ) → List Task → List Task
unfolding insert_by
order_by key [] = []
order_by key (t ∷ ts) = insert_by key t (order_by key ts)

abbrev pub has_id : List Task → ℕ → Bool
has_id ts i = any (λ t. nat_beq t.id i) ts

abbrev pub lease : DequeueInput → ℕ → Task → Task
lease input now t = record t {
  status = leased;
  leased_by = some input.worker_id;
  lease_expires_at = some (now + input.lease_seconds * 1000);
  attempt = t.attempt + 1;
}

abbrev pub candidates : DequeueInput → ℕ → (ℕ → Bool) → List Task → List Task
candidates input now locked rows =
    take input.limit (order_by (λ t. t.run_after) (select (is_candidate input now locked) rows))

-- The rows leased are returned in the order of the table; the query leaves their order open.
unfoldable pub dequeue : DequeueInput → ℕ → (ℕ → Bool) → Tasks → Tasks × List Task
unfolding order_by
dequeue input now locked q =
    let chosen = candidates input now locked q.rows in
    (
      record q { rows = update_where (λ t. has_id chosen t.id) (lease input now) q.rows },
      map (lease input now) (select (λ t. has_id chosen t.id) q.rows),
    )

-- id = … AND leased_by = … AND status = 'leased'
abbrev pub is_held : ℕ → String → Task → Bool
is_held i worker t = nat_beq t.id i && is_some_of worker t.leased_by && is_leased t.status

abbrev pub holds_any : List ℕ → String → Task → Bool
holds_any ids worker t =
    any (λ i. nat_beq i t.id) ids && is_some_of worker t.leased_by && is_leased t.status

unfoldable pub heartbeat : List ℕ → String → ℕ → ℕ → Tasks → Tasks × ℕ
heartbeat ids worker lease_seconds now q = (
  record q {
    rows =
        update_where (holds_any ids worker)
          (λ t. record t { lease_expires_at = some (now + lease_seconds * 1000) }) q.rows;
  },
  count_where (holds_any ids worker) q.rows,
)

unfoldable pub complete : ℕ → String → Tasks → Tasks × Bool
complete i worker q = (
  record q { rows = update_where (is_held i worker) (λ t. record t { status = completed }) q.rows },
  any (is_held i worker) q.rows,
)

abbrev pub record_failure : String → ℕ → ℕ → Task → Task
record_failure error now delay t = record t {
  status = if leb t.max_attempts t.attempt then dead else pending;
  run_after = if leb t.max_attempts t.attempt then t.run_after else now + delay;
  last_error = some error;
  leased_by = none;
  lease_expires_at = none;
}

pub record FailInput : Type 0 where
  pub task_id : ℕ
  pub worker_id : String
  pub error : String
  pub attempt : ℕ
  pub min_delay : ℕ

-- The query of `fail`, with the delay that has been drawn.
unfoldable pub fail_after : FailInput → ℕ → ℕ → Tasks → Tasks × Bool
fail_after input delay now q = (
  record q {
    rows =
        update_where (is_held input.task_id input.worker_id) (record_failure input.error now delay)
          q.rows;
  },
  any (is_held input.task_id input.worker_id) q.rows,
)

-- `none` is the error that the delay's computation throws.
unfoldable pub fail : FailInput → RetryDelayOptions → ℕ → Tasks → Option (Tasks × Bool)
unfolding compute_retry_delay_with_floor fail_after
fail input options now q =
    elim (compute_retry_delay_with_floor input.attempt input.min_delay options) [
      | none ↦ none
      | some delay ↦ some (fail_after input delay now q)
    ]

abbrev expires_before : ℕ → Option ℕ → Bool
expires_before now none = false
expires_before now (some at) = ltb at now

abbrev pub is_expired : ℕ → (ℕ → Bool) → Task → Bool
is_expired now locked t =
    is_leased t.status && expires_before now t.lease_expires_at && not (locked t.id)

abbrev pub reclaim : Task → Task
reclaim t = record t { status = pending; leased_by = none; lease_expires_at = none }

abbrev pub expired_rows : ℕ → ℕ → (ℕ → Bool) → List Task → List Task
expired_rows limit now locked rows =
    take limit (order_by (λ t. get_or 0 t.lease_expires_at) (select (is_expired now locked) rows))

-- The reaper's query: expired leases go back to `pending`, earliest first, `attempt` as it is.
unfoldable pub reclaim_expired : ℕ → ℕ → (ℕ → Bool) → Tasks → Tasks × List ℕ
unfolding order_by
reclaim_expired limit now locked q =
    let expired = expired_rows limit now locked q.rows in
    (
      record q { rows = update_where (λ t. has_id expired t.id) reclaim q.rows },
      map (λ t. t.id) (select (λ t. has_id expired t.id) q.rows),
    )

pub record QueueDepth : Type 0 where
  pub pending : ℕ
  pub leased : ℕ
  pub completed : ℕ
  pub dead : ℕ

unfoldable pub get_queue_depth : Tasks → QueueDepth
get_queue_depth q = record {
  pending = count_where (λ t. is_pending t.status) q.rows;
  leased = count_where (λ t. is_leased t.status) q.rows;
  completed = count_where (λ t. is_completed t.status) q.rows;
  dead = count_where (λ t. is_dead t.status) q.rows;
}

pub record LeaseFence : Type 0 where
  pub task_id : ℕ
  pub worker_id : String
  pub attempt : ℕ

abbrev pub is_fenced : LeaseFence → Task → Bool
is_fenced f t =
    nat_beq t.id f.task_id
    && is_leased t.status
    && is_some_of f.worker_id t.leased_by
    && nat_beq t.attempt f.attempt

unfoldable pub is_lease_owned : LeaseFence → Tasks → Bool
is_lease_owned f q = any (is_fenced f) q.rows
