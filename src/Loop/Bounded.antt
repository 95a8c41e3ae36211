-- ===== src/Loop/Bounded.antt =====
-- What a worker without notifications leases and runs (worker.ts).
use karya_kram.Base.{
  ℕ, ◌+◌, ◌≤◌, ◌≡◌, refl, Bool, true, false, ◌&&◌, Option, none, some, List, [], ◌∷◌, arith, length,
  map, ltb, number_eq, Bool-cases, inl, inr, subst,
}
use karya_kram.Base.Dict.{get}
use karya_kram.Queue.Task.{Task, Tasks}
use karya_kram.Queue.Backoff.{RetryDelayOptions}
use karya_kram.Queue.Ops.{dequeue}
use karya_kram.Queue.Invariant.{Inv}
use karya_kram.Queue.Preserve.{dequeue-Inv}
use karya_kram.Queue.Dispatch.{dequeue-Granted}
use karya_kram.Queue.Steps.{heartbeats, completes, fails, step, step-Inv}
use karya_kram.Loop.Config.{WorkerConfig}
use karya_kram.Loop.Polling.{NewWorker}
use karya_kram.Loop.Machine.{
  Poll, asked, answered, Run, Worker, Outcome, handled, raised, start, new_state, settle,
  dequeue_input,
}
use karya_kram.Loop.Events.{
  World, Event, timer_fires, query_runs, query_fails, poll_resumes, handler_ends, settle_errs,
  run_ends, beats, connects, notifies, stops, others, run_query, end_handler, beat, react, reacts,
}
use karya_kram.Loop.Sizes.{reserved}
use karya_kram.Loop.OnePoll.{OneLoop, schedule_next_poll-OneLoop}
use karya_kram.Loop.Kept.{
  put-OneLoop, fire-OneLoop, fail_query-OneLoop, resume-OneLoop, settle_run-OneLoop,
  err_settle-OneLoop, end_run-OneLoop, connect-OneLoop, notified-OneLoop, stop-OneLoop,
}

pub record Steady (c : WorkerConfig) (s : World) : Type 0 where
  pub loop : OneLoop c s.worker
  pub queue : Inv s.tasks

run_query-Steady :
    {c : WorkerConfig} (i now : ℕ) (locked : ℕ → Bool) (o : Option Poll) (s : World)
    → get i s.worker.polls ≡ o
    → Steady c s
    → Steady c (run_query i now locked o s)
unfolding run_query
run_query-Steady i now locked none s e h = h
run_query-Steady i now locked (some (answered ts)) s e h = h
run_query-Steady i now locked (some (asked capacity)) s e h =
    let input = dequeue_input s.worker.config capacity in
    let r = dequeue input now locked s.tasks in
    record {
      loop =
          put-OneLoop i (asked capacity) (answered r.1) s.worker e
            (dequeue-Granted input now locked s.tasks h.queue).0 h.loop;
      queue = dequeue-Inv input now locked s.tasks h.queue;
    }

pub settle-Inv :
    (c : WorkerConfig) (t : Task) (outcome : Outcome) (options : RetryDelayOptions) (now : ℕ)
    (q : Tasks)
    → Inv q
    → Inv (settle c t outcome options now q)
unfolding settle step
settle-Inv c t handled options now q inv = step-Inv q (completes t.id c.worker_id) inv
settle-Inv c t (raised message retry) options now q inv = step-Inv q (fails _ options now) inv

end_handler-Steady :
    {c : WorkerConfig} (i : ℕ) (o : Option Run) (outcome : Outcome) (options : RetryDelayOptions)
    (now : ℕ) (s : World)
    → Steady c s
    → Steady c (end_handler i o outcome options now s)
unfolding end_handler
end_handler-Steady i none outcome options now s h = h
end_handler-Steady i (some r) outcome options now s h = elim (Bool-cases r.settled) [
  | inl e ↦ simp e h
  | inr e ↦ simp e (record {
    loop = settle_run-OneLoop i r s.worker h.loop;
    queue = settle-Inv s.worker.config r.task outcome options now s.tasks h.queue;
  })
]

pub beat-Inv : (now : ℕ) (w : Worker) (q : Tasks) → Inv q → Inv (beat now w q)
unfolding beat step
beat-Inv now w q inv = elim (Bool-cases (w.beating && ltb 0 (length w.running))) [
  | inl e ↦ rw e (
      step-Inv q
        (heartbeats (map (λ r. r.0) w.running) w.config.worker_id w.config.lease_seconds now) inv)
  | inr e ↦ rw e inv
]

pub react-Steady : {c : WorkerConfig} (s : World) (e : Event) → Steady c s → Steady c (react s e)
unfolding react
react-Steady s (timer_fires i) h = record {
  loop = fire-OneLoop i _ s.worker refl h.loop;
  queue = h.queue;
}
react-Steady s (query_runs i now locked) h = run_query-Steady i now locked _ s refl h
react-Steady s (query_fails i) h = record {
  loop = fail_query-OneLoop i _ s.worker refl h.loop;
  queue = h.queue;
}
react-Steady s (poll_resumes i) h = record {
  loop = resume-OneLoop i _ s.worker refl h.loop;
  queue = h.queue;
}
react-Steady s (handler_ends i outcome options now) h =
    end_handler-Steady i _ outcome options now s h
react-Steady s (settle_errs i) h = record {
  loop = err_settle-OneLoop i _ s.worker h.loop;
  queue = h.queue;
}
react-Steady s (run_ends i) h = record {
  loop = end_run-OneLoop i _ s.worker h.loop;
  queue = h.queue;
}
react-Steady s (beats now) h = record {
  loop = h.loop;
  queue = beat-Inv now s.worker s.tasks h.queue;
}
react-Steady s connects h = record { loop = connect-OneLoop s.worker h.loop; queue = h.queue }
react-Steady s notifies h = record { loop = notified-OneLoop s.worker h.loop; queue = h.queue }
react-Steady s stops h = record { loop = stop-OneLoop s.worker h.loop; queue = h.queue }
react-Steady s (others query) h = record { loop = h.loop; queue = step-Inv s.tasks query h.queue }

reacts-Steady :
    {c : WorkerConfig} (s : World) (es : List Event) → Steady c s → Steady c (reacts s es)
unfolding reacts
reacts-Steady s [] h = h
reacts-Steady s (e ∷ es) h = reacts-Steady (react s e) es (react-Steady s e h)

abbrev pub started : NewWorker → Tasks → World
started made q = record { worker = start made; tasks = q }

start-OneLoop :
    (made : NewWorker)
    → made.config.notify_connection_string ≡ none
    → OneLoop made.config (start made)
unfolding start
start-OneLoop made quiet = schedule_next_poll-OneLoop 0 (new_state made) (record {
  room = omega arith;
  no_timer = refl;
  no_poll = refl;
  kept = refl;
  quiet = quiet;
  deaf = refl;
})

-- A worker without a notify connection string, made over tables that keep the queue's invariant,
-- after any events (timers, queries that run or fail, polls that resume, handlers and runs that
-- end, heartbeats, stop, and queries by others): the entries of its Map of running tasks, which is
-- keyed by the task's id, with the tasks that its polls may still start, are at most
-- maxConcurrency; until it is stopped exactly one timer or one poll is out; and once it is stopped
-- no timer is, and at most one poll.
pub poll_loop :
    (made : NewWorker) (q : Tasks) (es : List Event)
    → made.config.notify_connection_string ≡ none
    → Inv q
    → let w = (reacts (started made q) es).worker in
      (length w.running + reserved w.polls ≤ made.config.max_concurrency)
      × (w.stopped ≡ false → length w.timers + length w.polls ≡ 1)
      × (w.stopped ≡ true → (length w.timers ≡ 0) × (length w.polls ≤ 1))
poll_loop made q es quiet inv =
    let h =
      reacts-Steady (started made q) es (record { loop = start-OneLoop made quiet; queue = inv }) in
    (
      subst
          (λ c.
            length (reacts (started made q) es).worker.running
              + reserved (reacts (started made q) es).worker.polls
            ≤ c.max_concurrency)
          h.loop.kept h.loop.room,
      h.loop.going,
      h.loop.halted,
    )
