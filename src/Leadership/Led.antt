-- ===== src/Leadership/Led.antt =====
-- The reaper of a replica runs only while the replica leads (leaderElection.ts, scheduler.ts).
use karya_kram.Base.{
  ℕ, ◌+◌, ◌≡◌, refl, Bool, true, false, Option, none, some, List, [], ◌∷◌, arith, length, ltb,
  Bool-cases, inl, inr, number_eq, sym, ◌∙◌,
}
use karya_kram.Base.Dict.{get}
use karya_kram.Base.Sizes.{length-remove}
use karya_kram.Queue.Task.{Tasks}
use karya_kram.Leadership.Election.{
  Election, Notice, quiet, acquired, lost, has_client, new_election, connect,
}
use karya_kram.Leadership.Reaper.{Reaper, fires, tick_ends, schedule_next}
use karya_kram.Leadership.Scheduler.{
  Scheduler, SchedulerConfig, notice, on_acquire, on_lose, depth_fired, refresh_queue_depth, start,
}
use karya_kram.Leadership.Events.{
  Replica, Event, connects, connect_fails, lock_answers, records, disconnects, poll_fires,
  reconnect_fires, stops, closes, reaper_fires, reaps, reap_fails, depth_fires, depth_read, others,
  reap, reap_failed, depth_done, elect, react, reacts,
}
use karya_kram.Leadership.Announced.{
  Announced, Sound, connect_ended-Sound, connect_refused-Sound, answered-Sound, recorded-Sound,
  disconnected-Sound, poll_fired-Sound, reconnect_fired-Sound, stop-Sound, closed-Sound,
}

-- The timers and ticks of the reaper that are out.
abbrev pub reaping : Reaper → ℕ
reaping r = length r.timers + r.ticks

-- A replica that does not lead, and is not about to say that it stopped leading, has a reaper that is
-- stopped or was not started. A replica that stopped neither leads nor has a connection.
pub record Led (s : Scheduler) : Type 0 where
  pub follows :
      s.reaper.stopped ≡ false
      → s.election.leader ≡ false
      → s.election.closing ≡ false
      → reaping s.reaper ≡ 0
  pub retired :
      s.election.stopped ≡ true
      → (s.election.leader ≡ false) × (has_client s.election.client ≡ false)

notice-Led : (r : Election × Notice) (s : Scheduler) → Led s → Sound s.election r → Led (notice r s)
unfolding notice on_acquire on_lose Announced
notice-Led (e, quiet) s h sound = record {
  follows = λ going idle shut. h.follows going (sound.says idle shut).0 (sound.says idle shut).1;
  retired = sound.retires;
}
notice-Led (e, acquired) s h sound = elim (Bool-cases s.metrics) [
  | inl m ↦ simp m (record { follows = λ going idle. absurd cc; retired = sound.retires })
  | inr m ↦ simp m (record { follows = λ going idle. absurd cc; retired = sound.retires })
]
notice-Led (e, lost) s h sound = record { follows = λ going. absurd cc; retired = sound.retires }

elected-Led :
    (p : Replica) (event : Event)
    → Led p.scheduler
    → Sound p.scheduler.election (elect p.scheduler.election event)
    → Led (notice (elect p.scheduler.election event) p.scheduler)
elected-Led p event h sound = notice-Led (elect p.scheduler.election event) p.scheduler h sound

-- The reaper goes on only from a timer or a tick that was out.
reaper-Led :
    (r : Reaper) (s : Scheduler)
    → Led s
    → (r.stopped ≡ false → s.reaper.stopped ≡ false)
    → (reaping s.reaper ≡ 0 → reaping r ≡ 0)
    → Led (record s { reaper = r })
reaper-Led r s h same out = record {
  follows = λ going idle shut. out (h.follows (same going) idle shut);
  retired = h.retired;
}

fires-idle :
    (i : ℕ) (o : Option ℕ) (r : Reaper)
    → get i r.timers ≡ o
    → reaping r ≡ 0
    → reaping (fires i o r) ≡ 0
fires-idle i none r e h = h
fires-idle i (some d) r e h = absurd (omega (arith, h, length-remove i r.timers d e))

fires-stopped : (i : ℕ) (o : Option ℕ) (r : Reaper) → (fires i o r).stopped ≡ r.stopped
fires-stopped i none r = refl
fires-stopped i (some d) r = refl

tick_ends-stopped : (r : Reaper) → (tick_ends r).stopped ≡ r.stopped
unfolding tick_ends schedule_next
tick_ends-stopped r = ground arith

reap-Led :
    (now : ℕ) (locked : ℕ → Bool) (p : Replica)
    → Led p.scheduler
    → Led (reap now locked p).scheduler
unfolding reap
reap-Led now locked p h = elim (Bool-cases (ltb 0 p.scheduler.reaper.ticks)) [
  | inr e ↦ simp e h
  | inl e ↦ simp e (
      reaper-Led (tick_ends p.scheduler.reaper) p.scheduler h
        (λ going. sym (tick_ends-stopped p.scheduler.reaper) ∙ going)
        (λ out. absurd (ground (arith, out))))
]

reap_failed-Led : (s : Scheduler) → Led s → Led (reap_failed s)
unfolding reap_failed
reap_failed-Led s h = elim (Bool-cases (ltb 0 s.reaper.ticks)) [
  | inr e ↦ simp e h
  | inl e ↦ simp e (
      reaper-Led (tick_ends s.reaper) s h (λ going. sym (tick_ends-stopped s.reaper) ∙ going)
        (λ out. absurd (ground (arith, out))))
]

depth_fired-Led : (i : ℕ) (o : Option ℕ) (s : Scheduler) → Led s → Led (depth_fired i o s)
depth_fired-Led i none s h = h
depth_fired-Led i (some d) s h = record { follows = h.follows; retired = h.retired }

depth_done-Led : (ok : Bool) (p : Replica) → Led p.scheduler → Led (depth_done ok p)
unfolding depth_done refresh_queue_depth
depth_done-Led ok p h = elim (Bool-cases (ltb 0 p.scheduler.depth_reads)) [
  | inr e ↦ simp e h
  | inl e ↦ elim (Bool-cases p.scheduler.election.leader) [
    | inl l ↦ simp (e, l) (record { follows = λ a b. absurd cc; retired = h.retired })
    | inr l ↦ simp (e, l) (record { follows = h.follows; retired = h.retired })
  ]
]

react-Led : (p : Replica) (event : Event) → Led p.scheduler → Led (react p event).scheduler
unfolding react elect
react-Led p (connects i) h =
    elected-Led p (connects i) h (connect_ended-Sound i _ p.scheduler.election h.retired)
react-Led p (connect_fails i) h =
    elected-Led p (connect_fails i) h (connect_refused-Sound i _ p.scheduler.election h.retired)
react-Led p (lock_answers i granted) h =
    elected-Led p (lock_answers i granted) h
      (answered-Sound i granted _ p.scheduler.election h.retired)
react-Led p (records i) h =
    elected-Led p (records i) h (recorded-Sound i _ p.scheduler.election h.retired)
react-Led p (disconnects c) h =
    elected-Led p (disconnects c) h (disconnected-Sound c p.scheduler.election h.retired)
react-Led p (poll_fires i) h =
    elected-Led p (poll_fires i) h (poll_fired-Sound i _ p.scheduler.election h.retired)
react-Led p (reconnect_fires i) h =
    elected-Led p (reconnect_fires i) h (reconnect_fired-Sound i _ p.scheduler.election h.retired)
react-Led p stops h = elected-Led p stops h (stop-Sound p.scheduler.election h.retired)
react-Led p closes h = elected-Led p closes h (closed-Sound p.scheduler.election h.retired)
react-Led p (reaper_fires i) h =
    let r = p.scheduler.reaper in
    reaper-Led (fires i (get i r.timers) r) p.scheduler h
      (λ going. sym (fires-stopped i (get i r.timers) r) ∙ going)
      (fires-idle i (get i r.timers) r refl)
react-Led p (reaps now locked) h = reap-Led now locked p h
react-Led p reap_fails h = reap_failed-Led p.scheduler h
react-Led p (depth_fires i) h = depth_fired-Led i _ p.scheduler h
react-Led p (depth_read ok) h = depth_done-Led ok p h
react-Led p (others query) h = h

pub reacts-Led : (p : Replica) (es : List Event) → Led p.scheduler → Led (reacts p es).scheduler
unfolding reacts
reacts-Led p [] h = h
reacts-Led p (e ∷ es) h = reacts-Led (react p e) es (react-Led p e h)

start-Led : (config : SchedulerConfig) (metrics : Bool) → Led (start config metrics)
unfolding start new_election connect
start-Led config metrics = record { follows = λ going idle shut. refl; retired = λ e. (refl, refl) }

-- After any events of a replica that was started: where the reaper is not stopped, the replica
-- does not lead and no stop waits for its connection to end, the reaper has no timer and no tick
-- out; and a replica that was stopped neither leads nor has a connection.
pub reaper_follows :
    (config : SchedulerConfig) (metrics : Bool) (q : Tasks) (es : List Event)
    → Led (reacts (record { scheduler = start config metrics; tasks = q }) es).scheduler
reaper_follows config metrics q es =
    reacts-Led (record { scheduler = start config metrics; tasks = q }) es
      (start-Led config metrics)
