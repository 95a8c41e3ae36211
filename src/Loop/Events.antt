-- ===== src/Loop/Events.antt =====
-- The events of a worker beside the tasks table (worker.ts), and those of others on the table.
use karya_kram.Base.{
  ℕ, String, Bool, true, ◌&&◌, Option, none, some, List, [], ◌∷◌, map, ltb, number_eq, length,
  if◌then◌else◌,
}
use karya_kram.Base.Dict.{get, put, remove}
use karya_kram.Queue.Task.{Tasks}
use karya_kram.Queue.Backoff.{RetryDelayOptions}
use karya_kram.Queue.Ops.{dequeue, heartbeat}
use karya_kram.Queue.Steps.{Query, step}
use karya_kram.Loop.Machine.{
  Poll, asked, answered, Run, Worker, Outcome, poll_once, poll_returns, notified, stop, finish,
  settle, dequeue_input,
}

pub record World : Type 0 where
  pub worker : Worker
  pub tasks : Tasks

-- A timer, a query with its time and the rows that others hold, the return of a poll, the end of a
-- handler, the end of a run, a heartbeat, the notify connection, a notification, `stop`, and any
-- query by others. Timers, polls and runs are named by their numbers.
pub data Event : Type 0 where
  timer_fires : ℕ → Event
  query_runs : ℕ → ℕ → (ℕ → Bool) → Event
  query_fails : ℕ → Event
  poll_resumes : ℕ → Event
  handler_ends : ℕ → Outcome → RetryDelayOptions → ℕ → Event
  settle_errs : ℕ → Event
  run_ends : ℕ → Event
  beats : ℕ → Event
  connects : Event
  notifies : Event
  stops : Event
  others : Query → Event

unfoldable pub fire : ℕ → Option ℕ → Worker → Worker
unfolding poll_once
fire i none w = w
fire i (some delay) w = poll_once (record w { timers = remove i w.timers })

unfoldable pub run_query : ℕ → ℕ → (ℕ → Bool) → Option Poll → World → World
unfolding dequeue
run_query i now locked (some (asked capacity)) s =
    let r = dequeue (dequeue_input s.worker.config capacity) now locked s.tasks in
    record { worker = record s.worker { polls = put i (answered r.1) s.worker.polls }; tasks = r.0 }
run_query i now locked _ s = s

abbrev pub fail_query : ℕ → Option Poll → Worker → Worker
fail_query i (some (asked capacity)) w = record w { polls = put i (answered []) w.polls }
fail_query i _ w = w

unfoldable pub resume : ℕ → Option Poll → Worker → Worker
unfolding poll_returns
resume i (some (answered tasks)) w = poll_returns tasks (record w { polls = remove i w.polls })
resume i _ w = w

abbrev pub settle_run : ℕ → Run → Worker → Worker
settle_run i r w = record w { runs = put i (record r { settled = true }) w.runs }

unfoldable pub end_handler : ℕ → Option Run → Outcome → RetryDelayOptions → ℕ → World → World
unfolding settle
end_handler i none outcome options now s = s
end_handler i (some r) outcome options now s = if r.settled then s else record {
  worker = settle_run i r s.worker;
  tasks = settle s.worker.config r.task outcome options now s.tasks;
}

abbrev pub err_settle : ℕ → Option Run → Worker → Worker
err_settle i none w = w
err_settle i (some r) w = settle_run i r w

abbrev pub end_run : ℕ → Option Run → Worker → Worker
end_run i none w = w
end_run i (some r) w = if r.settled then finish i r w else w

-- `sendHeartbeats`: nothing is sent while nothing runs.
unfoldable pub beat : ℕ → Worker → Tasks → Tasks
unfolding heartbeat
beat now w q =
    if w.beating && ltb 0 (length w.running)
    then (heartbeat (map (λ r. r.0) w.running) w.config.worker_id w.config.lease_seconds now q).0
    else q

abbrev pub connect : Option String → Worker → Worker
connect none w = w
connect (some url) w = record w { listening = true }

unfoldable pub react : World → Event → World
unfolding fire resume run_query end_handler beat notified stop step
react s (timer_fires i) = record s { worker = fire i (get i s.worker.timers) s.worker }
react s (query_runs i now locked) = run_query i now locked (get i s.worker.polls) s
react s (query_fails i) = record s { worker = fail_query i (get i s.worker.polls) s.worker }
react s (poll_resumes i) = record s { worker = resume i (get i s.worker.polls) s.worker }
react s (handler_ends i outcome options now) =
    end_handler i (get i s.worker.runs) outcome options now s
react s (settle_errs i) = record s { worker = err_settle i (get i s.worker.runs) s.worker }
react s (run_ends i) = record s { worker = end_run i (get i s.worker.runs) s.worker }
react s (beats now) = record s { tasks = beat now s.worker s.tasks }
react s connects = record s { worker = connect s.worker.config.notify_connection_string s.worker }
react s notifies = record s { worker = notified s.worker }
react s stops = record s { worker = stop s.worker }
react s (others query) = record s { tasks = step s.tasks query }

unfoldable pub reacts : World → List Event → World
unfolding react
reacts s [] = s
reacts s (e ∷ es) = reacts (react s e) es
