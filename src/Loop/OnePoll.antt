-- ===== src/Loop/OnePoll.antt =====
-- The single poll loop of a worker without notifications (worker.ts).
use karya_kram.Base.{
  ℕ, ◌+◌, ◌-◌, ◌≤◌, ◌≡◌, refl, true, false, Option, none, some, List, [], ◌∷◌, ◌++◌, arith, length,
  leb, length-append, number_eq, Bool-cases, inl, inr, subst,
}
use karya_kram.Base.Timers.{clear_timer}
use karya_kram.Base.Dict.{Dict, get, remove}
use karya_kram.Queue.Task.{Task}
use karya_kram.Loop.Config.{WorkerConfig}
use karya_kram.Loop.Machine.{
  Poll, asked, Worker, schedule_next_poll, poll_once, dispatch, dispatch_all, note_tasks,
}
use karya_kram.Base.Sizes.{length-remove, length-remove-le, length-put-le}
use karya_kram.Loop.Sizes.{reserved, reserved-append}

-- Between two rounds of the loop: nothing is scheduled and no poll is out.
pub record Idle (c : WorkerConfig) (w : Worker) : Type 0 where
  pub room : length w.running ≤ w.config.max_concurrency
  pub no_timer : length w.timers ≡ 0
  pub no_poll : length w.polls ≡ 0
  pub kept : w.config ≡ c
  pub quiet : w.config.notify_connection_string ≡ none
  pub deaf : w.listening ≡ false

-- The worker runs and has reserved no more tasks than it may run, and one timer or one poll is out
-- until it stops; then no timer is.
pub record OneLoop (c : WorkerConfig) (w : Worker) : Type 0 where
  pub room : length w.running + reserved w.polls ≤ w.config.max_concurrency
  pub going : w.stopped ≡ false → length w.timers + length w.polls ≡ 1
  pub halted : w.stopped ≡ true → (length w.timers ≡ 0) × (length w.polls ≤ 1)
  pub armed : length (clear_timer w.poll_timer w.timers) ≡ 0
  pub kept : w.config ≡ c
  pub quiet : w.config.notify_connection_string ≡ none
  pub deaf : w.listening ≡ false

cleared :
    (i d : ℕ) (timers : Dict ℕ ℕ)
    → length timers ≡ 0
    → length (remove i (timers ++ (i, d) ∷ [])) ≡ 0
unfolding remove
cleared i d [] h = ground arith
cleared i d (t ∷ timers) h = absurd (omega arith)

pub cleared_empty :
    (o : Option ℕ) (timers : Dict ℕ ℕ) → length timers ≡ 0 → length (clear_timer o timers) ≡ 0
cleared_empty none timers h = h
cleared_empty (some i) timers h = omega (arith, length-remove-le i timers)

pub reserved-none : (polls : Dict ℕ Poll) → length polls ≡ 0 → reserved polls ≡ 0
reserved-none [] h = refl
reserved-none (p ∷ polls) h = absurd (omega arith)

stopped-OneLoop : {c : WorkerConfig} (w : Worker) → Idle c w → w.stopped ≡ true → OneLoop c w
stopped-OneLoop w h e = record {
  room = omega (arith, h.room, reserved-none w.polls h.no_poll);
  going = λ f. absurd cc;
  halted = λ f. (h.no_timer, omega (arith, h.no_poll));
  armed = cleared_empty w.poll_timer w.timers h.no_timer;
  kept = h.kept;
  quiet = h.quiet;
  deaf = h.deaf;
}

pub schedule_next_poll-OneLoop :
    {c : WorkerConfig} (delay : ℕ) (w : Worker) → Idle c w → OneLoop c (schedule_next_poll delay w)
unfolding schedule_next_poll
schedule_next_poll-OneLoop delay w h = elim (Bool-cases w.stopped) [
  | inl e ↦ simp e (stopped-OneLoop w h e)
  | inr e ↦ simp e (record {
    room = omega (arith, h.room, reserved-none w.polls h.no_poll);
    going = λ f.
        omega (arith, h.no_timer, h.no_poll, length-append w.timers ((w.next_timer, delay) ∷ []));
    halted = λ f. absurd cc;
    armed = cleared w.next_timer delay w.timers h.no_timer;
    kept = h.kept;
    quiet = h.quiet;
    deaf = h.deaf;
  })
]

full-schedules :
    (w : Worker)
    → w.stopped ≡ false
    → leb w.config.max_concurrency (length w.running) ≡ true
    → schedule_next_poll w.config.poll_interval_ms w ≡ poll_once w
unfolding poll_once
full-schedules w e full = rw (e, full) refl

poll_once-OneLoop : {c : WorkerConfig} (w : Worker) → Idle c w → OneLoop c (poll_once w)
unfolding poll_once
poll_once-OneLoop {c = c} w h = elim (Bool-cases w.stopped) [
  | inl e ↦ simp e (stopped-OneLoop w h e)
  | inr e ↦ elim (Bool-cases (leb w.config.max_concurrency (length w.running))) [
    | inl full ↦
        subst (OneLoop c) (full-schedules w e full)
          (schedule_next_poll-OneLoop w.config.poll_interval_ms w h)
    | inr space ↦
        let capacity = w.config.max_concurrency - length w.running in
        let poll : Dict ℕ Poll = (w.next_poll, asked capacity) ∷ [] in
        simp (e, space)
          (record {
            room =
                omega
                  (arith, h.room, reserved-none w.polls h.no_poll, reserved-append w.polls poll);
            going = λ f. omega (arith, h.no_timer, h.no_poll, length-append w.polls poll);
            halted = λ f. absurd cc;
            armed = cleared_empty w.poll_timer w.timers h.no_timer;
            kept = h.kept;
            quiet = h.quiet;
            deaf = h.deaf;
          })
  ]
]

pub fired-OneLoop :
    {c : WorkerConfig} (i delay : ℕ) (w : Worker)
    → get i w.timers ≡ some delay
    → OneLoop c w
    → OneLoop c (poll_once (record w { timers = remove i w.timers }))
fired-OneLoop i delay w e h =
    let less = length-remove i w.timers delay e in
    poll_once-OneLoop (record w { timers = remove i w.timers })
      (elim (Bool-cases w.stopped) [
        | inl s ↦ absurd (omega (arith, less, (h.halted s).0))
        | inr s ↦ record {
          room = omega (arith, h.room);
          no_timer = omega (arith, less, h.going s);
          no_poll = omega (arith, less, h.going s);
          kept = h.kept;
          quiet = h.quiet;
          deaf = h.deaf;
        }
      ])

pub dispatch_all-Idle :
    {c : WorkerConfig} (ts : List Task) (w : Worker)
    → Idle c w
    → length w.running + length ts ≤ w.config.max_concurrency
    → Idle c (dispatch_all ts w)
unfolding dispatch_all dispatch
dispatch_all-Idle [] w h fits = h
dispatch_all-Idle (t ∷ ts) w h fits =
    let grown = length-put-le t.id w.next_run w.running in
    dispatch_all-Idle ts (dispatch t w)
      (record {
        room = omega (arith, grown, fits);
        no_timer = h.no_timer;
        no_poll = h.no_poll;
        kept = h.kept;
        quiet = h.quiet;
        deaf = h.deaf;
      })
      (omega (arith, grown, fits))

pub note_tasks-Idle :
    {c : WorkerConfig} (ts : List Task) (w : Worker) → Idle c w → Idle c (note_tasks ts w)
note_tasks-Idle [] w h = record {
  room = h.room;
  no_timer = h.no_timer;
  no_poll = h.no_poll;
  kept = h.kept;
  quiet = h.quiet;
  deaf = h.deaf;
}
note_tasks-Idle (t ∷ ts) w h = record {
  room = h.room;
  no_timer = h.no_timer;
  no_poll = h.no_poll;
  kept = h.kept;
  quiet = h.quiet;
  deaf = h.deaf;
}
