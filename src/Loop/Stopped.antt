-- ===== src/Loop/Stopped.antt =====
-- What a worker may still start after `stop` (worker.ts).
use karya_kram.Base.{
  ℕ, ◌+◌, ◌≤◌, ◌≡◌, refl, Bool, true, Option, none, some, List, [], ◌∷◌, arith, length, String,
  number_eq, Bool-cases, inl, inr,
}
use karya_kram.Base.Dict.{get, remove}
use karya_kram.Queue.Task.{Task}
use karya_kram.Queue.Backoff.{RetryDelayOptions}
use karya_kram.Queue.Ops.{dequeue}
use karya_kram.Queue.Invariant.{Inv}
use karya_kram.Queue.Preserve.{dequeue-Inv}
use karya_kram.Queue.Dispatch.{dequeue-Granted}
use karya_kram.Queue.Steps.{step-Inv}
use karya_kram.Loop.Machine.{
  Poll, asked, answered, Run, Worker, Outcome, schedule_next_poll, dispatch, dispatch_all,
  note_tasks, poll_returns, poll_once, notified, stop, dequeue_input,
}
use karya_kram.Loop.Events.{
  World, Event, timer_fires, query_runs, query_fails, poll_resumes, handler_ends, settle_errs,
  run_ends, beats, connects, notifies, stops, others, fire, run_query, fail_query, resume,
  end_handler, err_settle, end_run, connect, react, reacts,
}
use karya_kram.Base.Sizes.{length-remove-le, length-put-le}
use karya_kram.Loop.Sizes.{reserved, reserved-remove, reserved-put}
use karya_kram.Loop.Bounded.{settle-Inv, beat-Inv}

-- A stopped worker whose running tasks, with those that its polls may still start, are at most `n`.
pub record Calm (n : ℕ) (w : Worker) : Type 0 where
  pub stopped : w.stopped ≡ true
  pub load : length w.running + reserved w.polls ≤ n

dispatch_all-Calm :
    (n : ℕ) (ts : List Task) (w : Worker)
    → w.stopped ≡ true
    → length w.running + length ts + reserved w.polls ≤ n
    → Calm n (dispatch_all ts w)
unfolding dispatch_all dispatch
dispatch_all-Calm n [] w e le = record { stopped = e; load = omega (arith, le) }
dispatch_all-Calm n (t ∷ ts) w e le =
    dispatch_all-Calm n ts (dispatch t w) e
      (omega (arith, le, length-put-le t.id w.next_run w.running))

noted-Calm :
    (n : ℕ) (noted ts : List Task) (w : Worker)
    → w.stopped ≡ true
    → length w.running + length ts + reserved w.polls ≤ n
    → Calm n (dispatch_all ts (note_tasks noted w))
noted-Calm n [] ts w e le = dispatch_all-Calm n ts (note_tasks [] w) e le
noted-Calm n (t ∷ us) ts w e le = dispatch_all-Calm n ts (note_tasks (t ∷ us) w) e le

schedule_next_poll-Calm :
    (n delay : ℕ) (w : Worker) → Calm n w → Calm n (schedule_next_poll delay w)
unfolding schedule_next_poll
schedule_next_poll-Calm n delay w h = simp h.stopped h

fire-Calm : (n i : ℕ) (o : Option ℕ) (w : Worker) → Calm n w → Calm n (fire i o w)
unfolding fire poll_once
fire-Calm n i none w h = h
fire-Calm n i (some delay) w h = simp h.stopped (record { stopped = refl; load = h.load })

fail_query-Calm :
    (n i : ℕ) (o : Option Poll) (w : Worker)
    → get i w.polls ≡ o
    → Calm n w
    → Calm n (fail_query i o w)
fail_query-Calm n i none w e h = h
fail_query-Calm n i (some (answered ts)) w e h = h
fail_query-Calm n i (some (asked c)) w e h = record {
  stopped = h.stopped;
  load = omega (arith, h.load, reserved-put i (answered []) w.polls (asked c) e (omega arith));
}

resume-Calm :
    (n i : ℕ) (o : Option Poll) (w : Worker) → get i w.polls ≡ o → Calm n w → Calm n (resume i o w)
unfolding resume poll_returns
resume-Calm n i none w e h = h
resume-Calm n i (some (asked c)) w e h = h
resume-Calm n i (some (answered ts)) w e h =
    let left = record w { polls = remove i w.polls } in
    schedule_next_poll-Calm n _ (dispatch_all ts (note_tasks ts left)) (
      noted-Calm n ts ts left h.stopped
        (omega (arith, h.load, reserved-remove i w.polls (answered ts) e)))

err_settle-Calm : (n i : ℕ) (o : Option Run) (w : Worker) → Calm n w → Calm n (err_settle i o w)
err_settle-Calm n i none w h = h
err_settle-Calm n i (some r) w h = record { stopped = h.stopped; load = h.load }

end_run-Calm : (n i : ℕ) (o : Option Run) (w : Worker) → Calm n w → Calm n (end_run i o w)
end_run-Calm n i none w h = h
end_run-Calm n i (some r) w h = elim (Bool-cases r.settled) [
  | inl e ↦ simp e (record {
    stopped = h.stopped;
    load = omega (arith, h.load, length-remove-le r.task.id w.running);
  })
  | inr e ↦ simp e h
]

connect-Calm : (n : ℕ) (o : Option String) (w : Worker) → Calm n w → Calm n (connect o w)
connect-Calm n none w h = h
connect-Calm n (some url) w h = record { stopped = h.stopped; load = h.load }

notified-Calm : (n : ℕ) (w : Worker) → Calm n w → Calm n (notified w)
unfolding notified
notified-Calm n w h = elim (Bool-cases w.listening) [
  | inl e ↦ simp e (schedule_next_poll-Calm n 0 _ (record { stopped = h.stopped; load = h.load }))
  | inr e ↦ simp e h
]

stop-Calm : (n : ℕ) (w : Worker) → Calm n w → Calm n (stop w)
unfolding stop
stop-Calm n w h = simp h.stopped h

pub record CalmWorld (n : ℕ) (s : World) : Type 0 where
  pub worker : Calm n s.worker
  pub queue : Inv s.tasks

run_query-Calm :
    (n i now : ℕ) (locked : ℕ → Bool) (o : Option Poll) (s : World)
    → get i s.worker.polls ≡ o
    → CalmWorld n s
    → CalmWorld n (run_query i now locked o s)
unfolding run_query
run_query-Calm n i now locked none s e h = h
run_query-Calm n i now locked (some (answered ts)) s e h = h
run_query-Calm n i now locked (some (asked c)) s e h =
    let input = dequeue_input s.worker.config c in
    let r = dequeue input now locked s.tasks in
    let got = (dequeue-Granted input now locked s.tasks h.queue).0 in
    record {
      worker = record {
        stopped = h.worker.stopped;
        load =
            omega
              (arith, h.worker.load, reserved-put i (answered r.1) s.worker.polls (asked c) e got);
      };
      queue = dequeue-Inv input now locked s.tasks h.queue;
    }

end_handler-Calm :
    (n i : ℕ) (o : Option Run) (outcome : Outcome) (options : RetryDelayOptions) (now : ℕ)
    (s : World)
    → CalmWorld n s
    → CalmWorld n (end_handler i o outcome options now s)
unfolding end_handler
end_handler-Calm n i none outcome options now s h = h
end_handler-Calm n i (some r) outcome options now s h = elim (Bool-cases r.settled) [
  | inl e ↦ simp e h
  | inr e ↦ simp e (record {
    worker = err_settle-Calm n i (some r) s.worker h.worker;
    queue = settle-Inv s.worker.config r.task outcome options now s.tasks h.queue;
  })
]

react-Calm : (n : ℕ) (s : World) (e : Event) → CalmWorld n s → CalmWorld n (react s e)
unfolding react
react-Calm n s (timer_fires i) h = record {
  worker = fire-Calm n i _ s.worker h.worker;
  queue = h.queue;
}
react-Calm n s (query_runs i now locked) h = run_query-Calm n i now locked _ s refl h
react-Calm n s (query_fails i) h = record {
  worker = fail_query-Calm n i _ s.worker refl h.worker;
  queue = h.queue;
}
react-Calm n s (poll_resumes i) h = record {
  worker = resume-Calm n i _ s.worker refl h.worker;
  queue = h.queue;
}
react-Calm n s (handler_ends i outcome options now) h =
    end_handler-Calm n i _ outcome options now s h
react-Calm n s (settle_errs i) h = record {
  worker = err_settle-Calm n i _ s.worker h.worker;
  queue = h.queue;
}
react-Calm n s (run_ends i) h = record {
  worker = end_run-Calm n i _ s.worker h.worker;
  queue = h.queue;
}
react-Calm n s (beats now) h = record {
  worker = h.worker;
  queue = beat-Inv now s.worker s.tasks h.queue;
}
react-Calm n s connects h = record { worker = connect-Calm n _ s.worker h.worker; queue = h.queue }
react-Calm n s notifies h = record { worker = notified-Calm n s.worker h.worker; queue = h.queue }
react-Calm n s stops h = record { worker = stop-Calm n s.worker h.worker; queue = h.queue }
react-Calm n s (others query) h = record {
  worker = h.worker;
  queue = step-Inv s.tasks query h.queue;
}

reacts-Calm : (n : ℕ) (s : World) (es : List Event) → CalmWorld n s → CalmWorld n (reacts s es)
unfolding reacts
reacts-Calm n s [] h = h
reacts-Calm n s (e ∷ es) h = reacts-Calm n (react s e) es (react-Calm n s e h)

-- A worker that is stopped, over tables that keep the queue's invariant, stays stopped through any
-- events, and the tasks that it runs, with those that its polls may still start, do not become
-- more.
pub after_stop :
    (s : World) (es : List Event)
    → s.worker.stopped ≡ true
    → Inv s.tasks
    → ((reacts s es).worker.stopped ≡ true)
      × (length (reacts s es).worker.running + reserved (reacts s es).worker.polls
          ≤ length s.worker.running + reserved s.worker.polls)
after_stop s es e inv =
    let h =
      reacts-Calm (length s.worker.running + reserved s.worker.polls) s es
        (record { worker = record { stopped = e; load = omega arith }; queue = inv }) in
    (h.worker.stopped, h.worker.load)
