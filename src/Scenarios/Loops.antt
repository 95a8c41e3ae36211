-- ===== src/Scenarios/Loops.antt =====
-- A worker that leases, runs and completes a task, and is then stopped.
use karya_kram.Base.{
  ◌+◌, ◌*◌, ◌^◌, ◌≤◌, ◌≡◌, refl, min, String, true, false, none, some, List, [], ◌∷◌, ◌++◌, ◌⊎◌,
  length, decimal,
}
use karya_kram.Base.Dict.{get, put, remove}
use karya_kram.Base.Throws.{threw, returned}
use karya_kram.Queue.Backoff.{RetryDelayOptions}
use karya_kram.Queue.Steps.{reclaims, steps, empty, reachable-Inv}
use karya_kram.Loop.Config.{WorkerConfigInput}
use karya_kram.Loop.Polling.{
  PollBackoffConfig, PollBackoff, NewWorker, new_poll_backoff, new_worker, on_work, delay_ms,
}
use karya_kram.Loop.Machine.{start, handled}
use karya_kram.Loop.Events.{
  World, Event, timer_fires, query_runs, poll_resumes, handler_ends, run_ends, stops, others,
  reacts,
}
use karya_kram.Loop.Sizes.{reserved}
use karya_kram.Loop.Accepted.{Accepted, worker_of, new_worker-Accepted}
use karya_kram.Loop.Eases.{after_polls, after_empties, poll_delay}
use karya_kram.Loop.Bounded.{started, poll_loop}
use karya_kram.Loop.RunCap.{NeverTwice, runs_capped}
use karya_kram.Loop.Stopped.{after_stop}
use karya_kram.Scenarios.Queues.{two_tasks, free}

abbrev input : WorkerConfigInput
input = record {
  worker_id = some "a";
  queue = none;
  task_type = none;
  poll_interval_ms = none;
  max_poll_interval_ms = none;
  lease_seconds = none;
  heartbeat_interval_ms = none;
  max_concurrency = 2;
  drain_timeout_ms = none;
  notify_connection_string = none;
}

abbrev made : NewWorker
made = worker_of "b" input

-- A worker with the defaults starts.
starts : new_worker "b" input ≡ returned made
unfolding new_worker
starts = refl

-- A lease of one second is over before the default heartbeat.
refused :
    new_worker "b" (record input { lease_seconds = some 1 })
    ≡ threw
        "heartbeatIntervalMs (10000ms) must be less than leaseSeconds * 1000 (1000ms), otherwise leases can expire between heartbeats"
unfolding new_worker decimal
refused = refl

new_worker-Accepted_example :
    (Accepted input × (new_worker "b" input ≡ returned (worker_of "b" input)))
    ⊎ ((¬ Accepted input) × (m : String) × (new_worker "b" input ≡ threw m))
new_worker-Accepted_example = new_worker-Accepted "b" input

abbrev backoff_config : PollBackoffConfig
backoff_config = record { min_ms = 100; max_ms = 2000; multiplier = 2 }

abbrev backoff : PollBackoff
backoff = record { config = backoff_config; current_ms = 100 }

backoff_made : new_poll_backoff backoff_config ≡ returned backoff
unfolding new_poll_backoff
backoff_made = refl

poll_delay_example :
    (100 ≤ delay_ms (after_polls (false ∷ []) backoff))
    × (delay_ms (after_polls (false ∷ []) backoff) ≤ 2000)
    × (delay_ms (after_empties 5 (on_work (after_polls (false ∷ []) backoff)))
        ≡ min (100 * 2 ^ 5) 2000)
poll_delay_example = poll_delay backoff_config backoff (false ∷ []) 5 backoff_made

abbrev options : RetryDelayOptions
options = record { base_seconds = 1; max_seconds = 300; random = 0 }

-- Both tasks are leased; one run ends before the worker is stopped.
abbrev leasing : List Event
leasing =
    timer_fires 0
    ∷ query_runs 0 10 free
    ∷ poll_resumes 0
    ∷ handler_ends 0 handled options 20
    ∷ run_ends 0
    ∷ []

abbrev world : World
world = started made (steps empty two_tasks)

one_left : length (reacts world leasing).worker.running ≡ 1
unfolding reacts steps put get remove start
one_left = refl

poll_loop_example :
    let w = (reacts (started made (steps empty two_tasks)) leasing).worker in
    (length w.running + reserved w.polls ≤ 2)
    × (w.stopped ≡ false → length w.timers + length w.polls ≡ 1)
    × (w.stopped ≡ true → (length w.timers ≡ 0) × (length w.polls ≤ 1))
poll_loop_example = poll_loop made (steps empty two_tasks) leasing refl (reachable-Inv two_tasks)

-- Each task is started once.
started_once : NeverTwice (started made (steps empty two_tasks)) leasing
unfolding NeverTwice steps put get remove start
started_once = (tt, (tt, ((refl, (refl, tt)), (tt, (tt, tt)))))

runs_capped_example :
    let w = (reacts (started made (steps empty two_tasks)) leasing).worker in
    length w.runs + reserved w.polls ≤ 2
runs_capped_example =
    runs_capped made (steps empty two_tasks) leasing refl (reachable-Inv two_tasks) started_once

-- The lease of the task that still runs is taken back, and the worker leases the task again, twice.
abbrev leasing_again : List Event
leasing_again =
    others (reclaims 100 40000 free)
    ∷ timer_fires 1
    ∷ query_runs 1 40001 free
    ∷ poll_resumes 1
    ∷ others (reclaims 100 80002 free)
    ∷ timer_fires 2
    ∷ query_runs 2 80003 free
    ∷ poll_resumes 2
    ∷ []

-- Three handlers of one task run then, where maxConcurrency is 2, and the Map has one entry.
over_cap :
    let w = (reacts world (leasing ++ leasing_again)).worker in
    (length w.runs ≡ 3) × (length w.running ≡ 1)
unfolding reacts steps put get remove start
over_cap = (refl, refl)

-- A worker that is stopped while a poll awaits its query.
abbrev polling : World
polling = record {
  worker = (reacts world (timer_fires 0 ∷ stops ∷ [])).worker;
  tasks = steps empty two_tasks;
}

polling_stopped : polling.worker.stopped ≡ true
unfolding reacts get start
polling_stopped = refl

-- The tasks that the poll then leases are run, although the worker is stopped.
runs_after_stop :
    length (reacts polling (query_runs 0 10 free ∷ poll_resumes 0 ∷ [])).worker.running ≡ 2
unfolding reacts steps put get remove start
runs_after_stop = refl

after_stop_example :
    let w = (reacts polling (query_runs 0 10 free ∷ poll_resumes 0 ∷ [])).worker in
    (w.stopped ≡ true)
    × (length w.running + reserved w.polls
        ≤ length polling.worker.running + reserved polling.worker.polls)
after_stop_example =
    after_stop polling (query_runs 0 10 free ∷ poll_resumes 0 ∷ []) polling_stopped
      (reachable-Inv two_tasks)
