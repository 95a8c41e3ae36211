-- ===== src/Loop/RunCap.antt =====
-- The runs of a worker against its Map of running tasks (worker.ts). The Map is keyed by the task's id,
-- so it holds each run as long as no task is started whose earlier run it still holds.
use karya_kram.Base.{
  ℕ, ◌+◌, ◌≤◌, ◌≡◌, refl, String, Bool, true, false, Option, none, some, List, [], ◌∷◌, arith,
  length, length-append, leb, number_eq, Bool-cases, inl, inr,
}
use karya_kram.Base.Dict.{Dict, get, put, remove}
use karya_kram.Base.Distinct.{
  Distinct, Distinct-put, Distinct-remove, length-put_new, length-remove-Distinct,
}
use karya_kram.Base.Sizes.{length-remove, length-put}
use karya_kram.Queue.Task.{Task, Tasks}
use karya_kram.Queue.Backoff.{RetryDelayOptions}
use karya_kram.Queue.Invariant.{Inv}
use karya_kram.Loop.Polling.{NewWorker, delay_ms}
use karya_kram.Loop.Machine.{
  Poll, asked, answered, Run, Worker, Outcome, start, new_state, schedule_next_poll, poll_once,
  dispatch, dispatch_all, note_tasks, poll_returns, notified, stop, finish,
}
use karya_kram.Loop.Events.{
  World, Event, timer_fires, query_runs, query_fails, poll_resumes, handler_ends, settle_errs,
  run_ends, beats, connects, notifies, stops, others, fire, run_query, fail_query, resume,
  end_handler, settle_run, err_settle, end_run, connect, react, reacts,
}
use karya_kram.Loop.Sizes.{reserved}
use karya_kram.Loop.Bounded.{started, poll_loop}

-- None of the tasks has an entry in the Map when it is started, the first as run `n`.
abbrev pub NoneHeld : List Task → ℕ → Dict ℕ ℕ → Type 0
NoneHeld [] n running = Unit
NoneHeld (t ∷ ts) n running = (get t.id running ≡ none) × NoneHeld ts (n + 1) (put t.id n running)

abbrev pub PollIsNew : Option Poll → Worker → Type 0
PollIsNew (some (answered ts)) w = NoneHeld ts w.next_run w.running
PollIsNew _ w = Unit

abbrev pub StartsNew : World → Event → Type 0
StartsNew s (poll_resumes i) = PollIsNew (get i s.worker.polls) s.worker
StartsNew s _ = Unit

-- No event starts a task whose earlier run the Map still holds.
unfoldable pub NeverTwice : World → List Event → Type 0
unfolding react
NeverTwice s [] = Unit
NeverTwice s (e ∷ es) = StartsNew s e × NeverTwice (react s e) es

-- The Map has an entry for each run.
record Held (w : Worker) : Type 0 where
  distinct : Distinct w.running
  held : length w.runs ≤ length w.running

schedule_next_poll-Held : (delay : ℕ) (w : Worker) → Held w → Held (schedule_next_poll delay w)
unfolding schedule_next_poll
schedule_next_poll-Held delay w h = elim (Bool-cases w.stopped) [
  | inl e ↦ simp e h
  | inr e ↦ simp e (record { distinct = h.distinct; held = h.held })
]

poll_once-Held : (w : Worker) → Held w → Held (poll_once w)
unfolding poll_once
poll_once-Held w h = elim (Bool-cases w.stopped) [
  | inl e ↦ simp e h
  | inr e ↦ elim (Bool-cases (leb w.config.max_concurrency (length w.running))) [
    | inl full ↦ simp (e, full) (record { distinct = h.distinct; held = h.held })
    | inr space ↦ simp (e, space) (record { distinct = h.distinct; held = h.held })
  ]
]

dispatch_all-Held :
    (ts : List Task) (w : Worker)
    → NoneHeld ts w.next_run w.running
    → Held w
    → Held (dispatch_all ts w)
unfolding dispatch_all dispatch
dispatch_all-Held [] w new h = h
dispatch_all-Held (t ∷ ts) w new h = dispatch_all-Held ts (dispatch t w) new.1 (record {
  distinct = Distinct-put t.id w.next_run w.running h.distinct;
  held = omega (
    arith,
    h.held,
    length-put_new t.id w.next_run w.running new.0,
    length-append w.runs ((w.next_run, record { task = t; settled = false }) ∷ []),
  );
})

note_tasks-Held : (ts : List Task) (w : Worker) → Held w → Held (note_tasks ts w)
note_tasks-Held [] w h = record { distinct = h.distinct; held = h.held }
note_tasks-Held (t ∷ ts) w h = record { distinct = h.distinct; held = h.held }

note_tasks-NoneHeld :
    (ts new : List Task) (w : Worker)
    → NoneHeld new w.next_run w.running
    → NoneHeld new (note_tasks ts w).next_run (note_tasks ts w).running
note_tasks-NoneHeld [] new w h = h
note_tasks-NoneHeld (t ∷ ts) new w h = h

poll_returns-Held :
    (ts : List Task) (w : Worker)
    → NoneHeld ts w.next_run w.running
    → Held w
    → Held (poll_returns ts w)
unfolding poll_returns
poll_returns-Held ts w new h =
    let next = dispatch_all ts (note_tasks ts w) in
    schedule_next_poll-Held (delay_ms next.backoff) next (
      dispatch_all-Held ts (note_tasks ts w) (note_tasks-NoneHeld ts ts w new)
        (note_tasks-Held ts w h))

fire-Held : (i : ℕ) (o : Option ℕ) (w : Worker) → Held w → Held (fire i o w)
unfolding fire
fire-Held i none w h = h
fire-Held i (some delay) w h =
    poll_once-Held (record w { timers = remove i w.timers })
      (record { distinct = h.distinct; held = h.held })

resume-Held : (i : ℕ) (o : Option Poll) (w : Worker) → PollIsNew o w → Held w → Held (resume i o w)
unfolding resume
resume-Held i none w new h = h
resume-Held i (some (asked n)) w new h = h
resume-Held i (some (answered ts)) w new h =
    poll_returns-Held ts (record w { polls = remove i w.polls }) new
      (record { distinct = h.distinct; held = h.held })

run_query-Held :
    (i now : ℕ) (locked : ℕ → Bool) (o : Option Poll) (s : World)
    → Held s.worker
    → Held (run_query i now locked o s).worker
unfolding run_query
run_query-Held i now locked none s h = h
run_query-Held i now locked (some (answered ts)) s h = h
run_query-Held i now locked (some (asked n)) s h = record { distinct = h.distinct; held = h.held }

fail_query-Held : (i : ℕ) (o : Option Poll) (w : Worker) → Held w → Held (fail_query i o w)
fail_query-Held i none w h = h
fail_query-Held i (some (asked n)) w h = record { distinct = h.distinct; held = h.held }
fail_query-Held i (some (answered ts)) w h = h

settle_run-Held :
    (i : ℕ) (r : Run) (w : Worker) → get i w.runs ≡ some r → Held w → Held (settle_run i r w)
settle_run-Held i r w e h = record {
  distinct = h.distinct;
  held = omega (arith, h.held, length-put i (record r { settled = true }) w.runs r e);
}

end_handler-Held :
    (i : ℕ) (o : Option Run) (outcome : Outcome) (options : RetryDelayOptions) (now : ℕ) (s : World)
    → get i s.worker.runs ≡ o
    → Held s.worker
    → Held (end_handler i o outcome options now s).worker
unfolding end_handler
end_handler-Held i none outcome options now s e h = h
end_handler-Held i (some r) outcome options now s e h = elim (Bool-cases r.settled) [
  | inl done ↦ simp done h
  | inr going ↦ simp going (settle_run-Held i r s.worker e h)
]

err_settle-Held :
    (i : ℕ) (o : Option Run) (w : Worker) → get i w.runs ≡ o → Held w → Held (err_settle i o w)
err_settle-Held i none w e h = h
err_settle-Held i (some r) w e h = settle_run-Held i r w e h

-- The `finally` takes one run and at most one entry.
finish-Held : (i : ℕ) (r : Run) (w : Worker) → get i w.runs ≡ some r → Held w → Held (finish i r w)
finish-Held i r w e h = record {
  distinct = Distinct-remove r.task.id w.running h.distinct;
  held = omega (
    arith,
    h.held,
    length-remove i w.runs r e,
    length-remove-Distinct r.task.id w.running h.distinct,
  );
}

end_run-Held :
    (i : ℕ) (o : Option Run) (w : Worker) → get i w.runs ≡ o → Held w → Held (end_run i o w)
end_run-Held i none w e h = h
end_run-Held i (some r) w e h = elim (Bool-cases r.settled) [
  | inl done ↦ simp done (finish-Held i r w e h)
  | inr going ↦ simp going h
]

connect-Held : (o : Option String) (w : Worker) → Held w → Held (connect o w)
connect-Held none w h = h
connect-Held (some url) w h = record { distinct = h.distinct; held = h.held }

notified-Held : (w : Worker) → Held w → Held (notified w)
unfolding notified
notified-Held w h = elim (Bool-cases w.listening) [
  | inl e ↦ elim (Bool-cases w.stopped) [
    | inl s ↦ simp (e, s) (record { distinct = h.distinct; held = h.held })
    | inr s ↦ simp (e, s) (record { distinct = h.distinct; held = h.held })
  ]
  | inr e ↦ simp e h
]

stop-Held : (w : Worker) → Held w → Held (stop w)
unfolding stop
stop-Held w h = elim (Bool-cases w.stopped) [
  | inl e ↦ simp e h
  | inr e ↦ simp e (record { distinct = h.distinct; held = h.held })
]

react-Held : (s : World) (e : Event) → StartsNew s e → Held s.worker → Held (react s e).worker
unfolding react
react-Held s (timer_fires i) new h = fire-Held i _ s.worker h
react-Held s (query_runs i now locked) new h = run_query-Held i now locked _ s h
react-Held s (query_fails i) new h = fail_query-Held i _ s.worker h
react-Held s (poll_resumes i) new h = resume-Held i _ s.worker new h
react-Held s (handler_ends i outcome options now) new h =
    end_handler-Held i _ outcome options now s refl h
react-Held s (settle_errs i) new h = err_settle-Held i _ s.worker refl h
react-Held s (run_ends i) new h = end_run-Held i _ s.worker refl h
react-Held s (beats now) new h = h
react-Held s connects new h = connect-Held s.worker.config.notify_connection_string s.worker h
react-Held s notifies new h = notified-Held s.worker h
react-Held s stops new h = stop-Held s.worker h
react-Held s (others query) new h = h

reacts-Held :
    (s : World) (es : List Event) → NeverTwice s es → Held s.worker → Held (reacts s es).worker
unfolding reacts NeverTwice
reacts-Held s [] new h = h
reacts-Held s (e ∷ es) new h = reacts-Held (react s e) es new.1 (react-Held s e new.0 h)

start-Held : (made : NewWorker) → Held (start made)
unfolding start
start-Held made =
    schedule_next_poll-Held 0 (new_state made) (record { distinct = tt; held = omega arith })

-- A worker without a notify connection string, made over tables that keep the queue's invariant,
-- after any events in which no poll starts a task whose earlier run its Map of running tasks still
-- holds: its runs that have not ended, with the tasks that its polls may still start, are at most
-- maxConcurrency.
pub runs_capped :
    (made : NewWorker) (q : Tasks) (es : List Event)
    → made.config.notify_connection_string ≡ none
    → Inv q
    → NeverTwice (started made q) es
    → let w = (reacts (started made q) es).worker in
      length w.runs + reserved w.polls ≤ made.config.max_concurrency
runs_capped made q es quiet inv new = omega (
  arith,
  (poll_loop made q es quiet inv).0,
  (reacts-Held (started made q) es new (start-Held made)).held,
)
