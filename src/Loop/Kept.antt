-- ===== src/Loop/Kept.antt =====
-- Every event on a worker without notifications keeps its single poll loop (worker.ts).
use karya_kram.Base.{
  ℕ, ◌+◌, ◌≤◌, ◌≡◌, refl, true, Option, none, some, List, [], ◌∷◌, arith, length, number_eq,
  Bool-cases, inl, inr, subst, sym,
}
use karya_kram.Base.Timers.{clear_timer}
use karya_kram.Base.Dict.{Dict, get, put, remove}
use karya_kram.Queue.Task.{Task}
use karya_kram.Loop.Config.{WorkerConfig}
use karya_kram.Loop.Polling.{delay_ms}
use karya_kram.Loop.Machine.{
  Poll, asked, answered, Run, Worker, note_tasks, dispatch_all, poll_returns, notified, stop,
}
use karya_kram.Loop.Events.{fire, fail_query, resume, settle_run, err_settle, end_run, connect}
use karya_kram.Base.Sizes.{length-remove, length-remove-le, length-put}
use karya_kram.Loop.Sizes.{places, reserved-remove, reserved-put}
use karya_kram.Loop.OnePoll.{
  Idle, OneLoop, schedule_next_poll-OneLoop, fired-OneLoop, dispatch_all-Idle, note_tasks-Idle,
  cleared_empty,
}

note_tasks-room :
    (ts : List Task) (w : Worker)
    → ((note_tasks ts w).running ≡ w.running) × ((note_tasks ts w).config ≡ w.config)
note_tasks-room [] w = (refl, refl)
note_tasks-room (t ∷ ts) w = (refl, refl)

poll_returns-OneLoop :
    {c : WorkerConfig} (ts : List Task) (w : Worker)
    → Idle c w
    → length w.running + length ts ≤ w.config.max_concurrency
    → OneLoop c (poll_returns ts w)
unfolding poll_returns
poll_returns-OneLoop ts w h fits =
    let noted = note_tasks ts w in
    let same = note_tasks-room ts w in
    schedule_next_poll-OneLoop (delay_ms (dispatch_all ts noted).backoff) (dispatch_all ts noted)
      (dispatch_all-Idle ts noted (note_tasks-Idle ts w h) (rw (same.0, same.1) fits))

-- The poll that resumes is the only one.
resumed-OneLoop :
    {c : WorkerConfig} (i : ℕ) (ts : List Task) (w : Worker)
    → get i w.polls ≡ some (answered ts)
    → OneLoop c w
    → OneLoop c (poll_returns ts (record w { polls = remove i w.polls }))
resumed-OneLoop i ts w e h =
    let less = length-remove i w.polls (answered ts) e in
    let freed = reserved-remove i w.polls (answered ts) e in
    poll_returns-OneLoop ts (record w { polls = remove i w.polls })
      (elim (Bool-cases w.stopped) [
        | inl s ↦ record {
          room = omega (arith, h.room);
          no_timer = (h.halted s).0;
          no_poll = omega (arith, less, (h.halted s).1);
          kept = h.kept;
          quiet = h.quiet;
          deaf = h.deaf;
        }
        | inr s ↦ record {
          room = omega (arith, h.room);
          no_timer = omega (arith, less, h.going s);
          no_poll = omega (arith, less, h.going s);
          kept = h.kept;
          quiet = h.quiet;
          deaf = h.deaf;
        }
      ])
      (omega (arith, freed, h.room))

-- An answer takes the place of what the poll asked for.
pub put-OneLoop :
    {c : WorkerConfig} (i : ℕ) (p r : Poll) (w : Worker)
    → get i w.polls ≡ some p
    → places r ≤ places p
    → OneLoop c w
    → OneLoop c (record w { polls = put i r w.polls })
put-OneLoop i p r w e le h =
    let same = length-put i r w.polls p e in
    record {
      room = omega (arith, h.room, reserved-put i r w.polls p e le);
      going = λ s. omega (arith, same, h.going s);
      halted = λ s. ((h.halted s).0, omega (arith, same, (h.halted s).1));
      armed = h.armed;
      kept = h.kept;
      quiet = h.quiet;
      deaf = h.deaf;
    }

-- A step that changes the runs and leaves the polls and timers.
fewer-OneLoop :
    {c : WorkerConfig} (running : Dict ℕ ℕ) (runs : Dict ℕ Run) (w : Worker)
    → length running ≤ length w.running
    → OneLoop c w
    → OneLoop c (record w { running = running; runs = runs })
fewer-OneLoop running runs w le h = record {
  room = omega (arith, h.room, le);
  going = h.going;
  halted = h.halted;
  armed = h.armed;
  kept = h.kept;
  quiet = h.quiet;
  deaf = h.deaf;
}

pub fire-OneLoop :
    {c : WorkerConfig} (i : ℕ) (o : Option ℕ) (w : Worker)
    → get i w.timers ≡ o
    → OneLoop c w
    → OneLoop c (fire i o w)
unfolding fire
fire-OneLoop i none w e h = h
fire-OneLoop i (some delay) w e h = fired-OneLoop i delay w e h

pub fail_query-OneLoop :
    {c : WorkerConfig} (i : ℕ) (o : Option Poll) (w : Worker)
    → get i w.polls ≡ o
    → OneLoop c w
    → OneLoop c (fail_query i o w)
fail_query-OneLoop i none w e h = h
fail_query-OneLoop i (some (asked n)) w e h =
    put-OneLoop i (asked n) (answered []) w e (omega arith) h
fail_query-OneLoop i (some (answered ts)) w e h = h

pub resume-OneLoop :
    {c : WorkerConfig} (i : ℕ) (o : Option Poll) (w : Worker)
    → get i w.polls ≡ o
    → OneLoop c w
    → OneLoop c (resume i o w)
unfolding resume
resume-OneLoop i none w e h = h
resume-OneLoop i (some (asked n)) w e h = h
resume-OneLoop i (some (answered ts)) w e h = resumed-OneLoop i ts w e h

pub settle_run-OneLoop :
    {c : WorkerConfig} (i : ℕ) (r : Run) (w : Worker) → OneLoop c w → OneLoop c (settle_run i r w)
settle_run-OneLoop i r w h =
    fewer-OneLoop w.running (put i (record r { settled = true }) w.runs) w (omega arith) h

pub err_settle-OneLoop :
    {c : WorkerConfig} (i : ℕ) (o : Option Run) (w : Worker)
    → OneLoop c w
    → OneLoop c (err_settle i o w)
err_settle-OneLoop i none w h = h
err_settle-OneLoop i (some r) w h = settle_run-OneLoop i r w h

pub end_run-OneLoop :
    {c : WorkerConfig} (i : ℕ) (o : Option Run) (w : Worker)
    → OneLoop c w
    → OneLoop c (end_run i o w)
end_run-OneLoop i none w h = h
end_run-OneLoop i (some r) w h = elim (Bool-cases r.settled) [
  | inl e ↦ rw e (
      fewer-OneLoop (remove r.task.id w.running) (remove i w.runs) w
        (length-remove-le r.task.id w.running) h)
  | inr e ↦ rw e h
]

pub connect-OneLoop :
    {c : WorkerConfig} (w : Worker)
    → OneLoop c w
    → OneLoop c (connect w.config.notify_connection_string w)
connect-OneLoop {c = c} w h = subst (λ o. OneLoop c (connect o w)) (sym h.quiet) h

pub notified-OneLoop : {c : WorkerConfig} (w : Worker) → OneLoop c w → OneLoop c (notified w)
unfolding notified
notified-OneLoop w h = simp h.deaf h

-- `stop` clears the one timer.
pub stop-OneLoop : {c : WorkerConfig} (w : Worker) → OneLoop c w → OneLoop c (stop w)
unfolding stop
stop-OneLoop w h = elim (Bool-cases w.stopped) [
  | inl e ↦ simp e h
  | inr e ↦ simp e (record {
    room = h.room;
    going = λ f. absurd cc;
    halted = λ f. (h.armed, omega (arith, h.going e));
    armed = cleared_empty w.poll_timer (clear_timer w.poll_timer w.timers) h.armed;
    kept = h.kept;
    quiet = h.quiet;
    deaf = refl;
  })
]
