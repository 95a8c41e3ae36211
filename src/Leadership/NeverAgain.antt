-- ===== src/Leadership/NeverAgain.antt =====
-- A reaper that was stopped once does not run again (reaper.ts, scheduler.ts).
use karya_kram.Base.{
  ℕ, ◌≤◌, ◌≡◌, refl, Bool, true, Option, none, some, List, [], ◌∷◌, arith, length, ltb, Bool-cases,
  inl, inr, number_eq,
}
use karya_kram.Base.Dict.{get}
use karya_kram.Base.Sizes.{length-remove, length-remove-le}
use karya_kram.Base.Timers.{Timers, clear_timer}
use karya_kram.Leadership.Election.{Election, Notice, quiet, acquired, lost}
use karya_kram.Leadership.Reaper.{Reaper, fires, tick_ends, schedule_next}
use karya_kram.Leadership.Scheduler.{
  Scheduler, notice, on_acquire, on_lose, depth_fired, refresh_queue_depth,
}
use karya_kram.Leadership.Events.{
  Replica, Event, connects, connect_fails, lock_answers, records, disconnects, poll_fires,
  reconnect_fires, stops, closes, reaper_fires, reaps, reap_fails, depth_fires, depth_read, others,
  reap, reap_failed, depth_done, elect, react, reacts,
}
use karya_kram.Leadership.Led.{reaping}
use karya_kram.Leadership.Reaper as ReaperOps

-- A stopped reaper with at most `n` timers and ticks out.
record Spent (n : ℕ) (r : Reaper) : Type 0 where
  stopped : r.stopped ≡ true
  left : reaping r ≤ n

length-clear_timer-le :
    (o : Option ℕ) (timers : Timers) → length (clear_timer o timers) ≤ length timers
length-clear_timer-le none timers = omega arith
length-clear_timer-le (some i) timers = length-remove-le i timers

notice-Spent :
    (n : ℕ) (r : Election × Notice) (s : Scheduler) → Spent n s.reaper → Spent n (notice r s).reaper
unfolding notice on_acquire on_lose ReaperOps.start ReaperOps.stop schedule_next
notice-Spent n (e, quiet) s h = h
notice-Spent n (e, acquired) s h = elim (Bool-cases s.metrics) [
  | inl m ↦ simp (m, h.stopped) h
  | inr m ↦ simp (m, h.stopped) h
]
notice-Spent n (e, lost) s h = record {
  stopped = refl;
  left = omega (arith, h.left, length-clear_timer-le s.reaper.timer s.reaper.timers);
}

fires-Spent :
    (n i : ℕ) (o : Option ℕ) (r : Reaper) → get i r.timers ≡ o → Spent n r → Spent n (fires i o r)
fires-Spent n i none r e h = h
fires-Spent n i (some d) r e h = record {
  stopped = h.stopped;
  left = omega (arith, h.left, length-remove i r.timers d e);
}

tick_ends-Spent : (n : ℕ) (r : Reaper) → Spent n r → Spent n (tick_ends r)
unfolding tick_ends schedule_next
tick_ends-Spent n r h = simp h.stopped (record { stopped = refl; left = omega (arith, h.left) })

reap-Spent :
    (n now : ℕ) (locked : ℕ → Bool) (p : Replica)
    → Spent n p.scheduler.reaper
    → Spent n (reap now locked p).scheduler.reaper
unfolding reap
reap-Spent n now locked p h = elim (Bool-cases (ltb 0 p.scheduler.reaper.ticks)) [
  | inl e ↦ simp e (tick_ends-Spent n p.scheduler.reaper h)
  | inr e ↦ simp e h
]

reap_failed-Spent : (n : ℕ) (s : Scheduler) → Spent n s.reaper → Spent n (reap_failed s).reaper
unfolding reap_failed
reap_failed-Spent n s h = elim (Bool-cases (ltb 0 s.reaper.ticks)) [
  | inl e ↦ simp e (tick_ends-Spent n s.reaper h)
  | inr e ↦ simp e h
]

depth_fired-reaper : (i : ℕ) (o : Option ℕ) (s : Scheduler) → (depth_fired i o s).reaper ≡ s.reaper
depth_fired-reaper i none s = refl
depth_fired-reaper i (some d) s = refl

depth_done-reaper : (ok : Bool) (p : Replica) → (depth_done ok p).reaper ≡ p.scheduler.reaper
unfolding depth_done refresh_queue_depth
depth_done-reaper ok p = ground arith

react-Spent :
    (n : ℕ) (p : Replica) (event : Event)
    → Spent n p.scheduler.reaper
    → Spent n (react p event).scheduler.reaper
unfolding react
react-Spent n p (connects i) h =
    notice-Spent n (elect p.scheduler.election (connects i)) p.scheduler h
react-Spent n p (connect_fails i) h =
    notice-Spent n (elect p.scheduler.election (connect_fails i)) p.scheduler h
react-Spent n p (lock_answers i granted) h =
    notice-Spent n (elect p.scheduler.election (lock_answers i granted)) p.scheduler h
react-Spent n p (records i) h =
    notice-Spent n (elect p.scheduler.election (records i)) p.scheduler h
react-Spent n p (disconnects c) h =
    notice-Spent n (elect p.scheduler.election (disconnects c)) p.scheduler h
react-Spent n p (poll_fires i) h =
    notice-Spent n (elect p.scheduler.election (poll_fires i)) p.scheduler h
react-Spent n p (reconnect_fires i) h =
    notice-Spent n (elect p.scheduler.election (reconnect_fires i)) p.scheduler h
react-Spent n p stops h = notice-Spent n (elect p.scheduler.election stops) p.scheduler h
react-Spent n p closes h = notice-Spent n (elect p.scheduler.election closes) p.scheduler h
react-Spent n p (reaper_fires i) h = fires-Spent n i _ p.scheduler.reaper refl h
react-Spent n p (reaps now locked) h = reap-Spent n now locked p h
react-Spent n p reap_fails h = reap_failed-Spent n p.scheduler h
react-Spent n p (depth_fires i) h = rw (depth_fired-reaper i _ p.scheduler) h
react-Spent n p (depth_read ok) h = rw (depth_done-reaper ok p) h
react-Spent n p (others query) h = h

reacts-Spent :
    (n : ℕ) (p : Replica) (es : List Event)
    → Spent n p.scheduler.reaper
    → Spent n (reacts p es).scheduler.reaper
unfolding reacts
reacts-Spent n p [] h = h
reacts-Spent n p (e ∷ es) h = reacts-Spent n (react p e) es (react-Spent n p e h)

-- Once the reaper of a replica is stopped it stays stopped through any events, leadership acquired
-- again included, and its timers and ticks that are out do not become more.
pub never_again :
    (p : Replica) (es : List Event)
    → p.scheduler.reaper.stopped ≡ true
    → ((reacts p es).scheduler.reaper.stopped ≡ true)
      × (reaping (reacts p es).scheduler.reaper ≤ reaping p.scheduler.reaper)
never_again p es e =
    let h =
      reacts-Spent (reaping p.scheduler.reaper) p es (record { stopped = e; left = omega arith }) in
    (h.stopped, h.left)
