-- ===== src/Loop/Machine.antt =====
-- packages/worker-sdk/src/worker.ts: the run loop. JavaScript runs each stretch between two awaits
-- without interruption, so every such stretch, each query and each timer is one event. Tracing,
-- metrics and logging are left out.
use karya_kram.Base.{
  ℕ, ◌+◌, ◌-◌, String, Bool, true, false, Option, none, some, List, [], ◌∷◌, ◌++◌, map, leb,
  number_eq, length, if◌then◌else◌,
}
use karya_kram.Base.Dict.{Dict, put, remove}
use karya_kram.Base.Timers.{Timers, clear_timer}
use karya_kram.Llm.{get_or}
use karya_kram.Queue.Task.{Task, Tasks}
use karya_kram.Queue.Backoff.{RetryDelayOptions}
use karya_kram.Queue.Ops.{DequeueInput, complete, fail}
use karya_kram.Queue.Steps.{table_after}
use karya_kram.Loop.Config.{WorkerConfig}
use karya_kram.Loop.Polling.{PollBackoff, NewWorker, on_empty, on_work, delay_ms}

-- A call of `pollOnce` that awaits its query, or has the query's answer.
pub data Poll : Type 0 where
  asked : ℕ → Poll
  answered : List Task → Poll

-- The body of a dispatch, before and after its `complete` or `fail`.
pub record Run : Type 0 where
  pub task : Task
  pub settled : Bool

-- A timer has its delay. `running` maps a task's id to the run that the Map holds a promise of, and
-- `awaited` are the runs that `stop` waits for.
pub record Worker : Type 0 where
  pub config : WorkerConfig
  pub backoff : PollBackoff
  pub running : Dict ℕ ℕ
  pub stopped : Bool
  pub poll_timer : Option ℕ
  pub beating : Bool
  pub listening : Bool
  pub timers : Timers
  pub next_timer : ℕ
  pub polls : Dict ℕ Poll
  pub next_poll : ℕ
  pub runs : Dict ℕ Run
  pub next_run : ℕ
  pub awaited : List ℕ

unfoldable pub schedule_next_poll : ℕ → Worker → Worker
schedule_next_poll delay w = if w.stopped then w else record w {
  timers = w.timers ++ (w.next_timer, delay) ∷ [];
  poll_timer = some w.next_timer;
  next_timer = w.next_timer + 1;
}

abbrev pub new_state : NewWorker → Worker
new_state made = record {
  config = made.config;
  backoff = made.backoff;
  running = [];
  stopped = false;
  poll_timer = none;
  beating = true;
  listening = false;
  timers = [];
  next_timer = 0;
  polls = [];
  next_poll = 0;
  runs = [];
  next_run = 0;
  awaited = [];
}

unfoldable pub start : NewWorker → Worker
unfolding schedule_next_poll
start made = schedule_next_poll 0 (new_state made)

-- `pollOnce` up to its query.
unfoldable pub poll_once : Worker → Worker
unfolding schedule_next_poll
poll_once w =
    if w.stopped
    then w
    else if leb w.config.max_concurrency (length w.running)
    then schedule_next_poll w.config.poll_interval_ms w
    else record w {
      polls = w.polls ++ (w.next_poll, asked (w.config.max_concurrency - length w.running)) ∷ [];
      next_poll = w.next_poll + 1;
    }

unfoldable pub dispatch : Task → Worker → Worker
dispatch t w = record w {
  runs = w.runs ++ (w.next_run, record { task = t; settled = false }) ∷ [];
  running = put t.id w.next_run w.running;
  next_run = w.next_run + 1;
}

unfoldable pub dispatch_all : List Task → Worker → Worker
unfolding dispatch
dispatch_all [] w = w
dispatch_all (t ∷ ts) w = dispatch_all ts (dispatch t w)

abbrev pub note_tasks : List Task → Worker → Worker
note_tasks [] w = record w { backoff = on_empty w.backoff }
note_tasks (t ∷ ts) w = record w { backoff = on_work w.backoff }

-- `pollOnce` after its query; a query that fails has found no tasks.
unfoldable pub poll_returns : List Task → Worker → Worker
unfolding schedule_next_poll dispatch_all
poll_returns tasks w =
    let next = dispatch_all tasks (note_tasks tasks w) in
    schedule_next_poll (delay_ms next.backoff) next

unfoldable pub notified : Worker → Worker
unfolding schedule_next_poll
notified w =
    if w.listening
    then schedule_next_poll 0
        (record w { backoff = on_work w.backoff; timers = clear_timer w.poll_timer w.timers })
    else w

-- `stop` up to its wait for the runs of that moment.
unfoldable pub stop : Worker → Worker
stop w = if w.stopped then w else record w {
  stopped = true;
  timers = clear_timer w.poll_timer w.timers;
  beating = false;
  listening = false;
  awaited = map (λ r. r.1) w.running;
}

-- The `finally` of a run.
abbrev pub finish : ℕ → Run → Worker → Worker
finish i r w = record w { running = remove r.task.id w.running; runs = remove i w.runs }

-- How the handler, or `complete` after it, ended.
pub data Outcome : Type 0 where
  handled : Outcome
  raised : String → Option ℕ → Outcome

abbrev pub dequeue_input : WorkerConfig → ℕ → DequeueInput
dequeue_input c capacity = record {
  worker_id = c.worker_id;
  queue = some c.queue;
  task_type = c.task_type;
  limit = capacity;
  lease_seconds = c.lease_seconds;
}

-- The query of a run that ends: `complete`, or `fail` with the delay that the error asks for.
unfoldable pub settle : WorkerConfig → Task → Outcome → RetryDelayOptions → ℕ → Tasks → Tasks
unfolding complete fail
settle c t handled options now q = (complete t.id c.worker_id q).0
settle c t (raised message retry_after) options now q = table_after q (
    fail
      (record {
        task_id = t.id;
        worker_id = c.worker_id;
        error = message;
        attempt = t.attempt;
        min_delay = get_or 0 retry_after;
      })
      options now q)
