-- ===== src/Leadership/Events.antt =====
-- The events of a replica of the scheduler beside the tasks table (leaderElection.ts, scheduler.ts,
-- reaper.ts).
use karya_kram.Base.{ℕ, Bool, Option, none, some, List, [], ◌∷◌, number_eq, ltb, if◌then◌else◌}
use karya_kram.Base.Dict.{get, remove}
use karya_kram.Queue.Task.{Tasks}
use karya_kram.Queue.Ops.{QueueDepth, reclaim_expired, get_queue_depth}
use karya_kram.Queue.Steps.{Query, step}
use karya_kram.Leadership.Election.{
  Attempt, trying, recording, Election, Notice, quiet, connect, attempt_acquire, connected,
  connect_failed, lock_answered, leadership_recorded, handle_disconnect, stop, closed,
}
use karya_kram.Leadership.Reaper.{fires, tick_ends}
use karya_kram.Leadership.Scheduler.{Scheduler, notice, depth_fired, refresh_queue_depth}

pub record Replica : Type 0 where
  pub scheduler : Scheduler
  pub tasks : Tasks

-- What happens to a replica: its connections, the lock's answers, its timers and queries, `stop` and
-- its end, and the queries of others on the tasks.
pub data Event : Type 0 where
  connects : ℕ → Event
  connect_fails : ℕ → Event
  lock_answers : ℕ → Bool → Event
  records : ℕ → Event
  disconnects : ℕ → Event
  poll_fires : ℕ → Event
  reconnect_fires : ℕ → Event
  stops : Event
  closes : Event
  reaper_fires : ℕ → Event
  reaps : ℕ → (ℕ → Bool) → Event
  reap_fails : Event
  depth_fires : ℕ → Event
  depth_read : Bool → Event
  others : Query → Event

unfoldable pub poll_fired : ℕ → Option ℕ → Election → Election
unfolding attempt_acquire
poll_fired i none e = e
poll_fired i (some d) e = attempt_acquire (record e { poll_timers = remove i e.poll_timers })

unfoldable pub reconnect_fired : ℕ → Option ℕ → Election → Election
unfolding connect
reconnect_fired i none e = e
reconnect_fired i (some d) e = connect (record e { reconnect_timers = remove i e.reconnect_timers })

unfoldable pub connect_ended : ℕ → Option ℕ → Election → Election
unfolding connected
connect_ended i none e = e
connect_ended i (some c) e = connected i e

unfoldable pub connect_refused : ℕ → Option ℕ → Election → Election
unfolding connect_failed
connect_refused i none e = e
connect_refused i (some c) e = connect_failed i e

unfoldable pub answered : ℕ → Bool → Option Attempt → Election → Election
unfolding lock_answered
answered i granted (some trying) e = lock_answered i granted e
answered i granted _ e = e

unfoldable pub recorded : ℕ → Option Attempt → Election → Election × Notice
unfolding leadership_recorded
recorded i (some recording) e = leadership_recorded i e
recorded i _ e = (e, quiet)

unfoldable pub reap : ℕ → (ℕ → Bool) → Replica → Replica
unfolding reclaim_expired tick_ends
reap now locked p =
    if ltb 0 p.scheduler.reaper.ticks
    then record {
      scheduler = record p.scheduler { reaper = tick_ends p.scheduler.reaper };
      tasks = (reclaim_expired p.scheduler.reaper.limit now locked p.tasks).0;
    }
    else p

unfoldable pub reap_failed : Scheduler → Scheduler
unfolding tick_ends
reap_failed s = if ltb 0 s.reaper.ticks then record s { reaper = tick_ends s.reaper } else s

unfoldable read_depth : Bool → Tasks → Option QueueDepth
unfolding get_queue_depth
read_depth ok q = if ok then some (get_queue_depth q) else none

unfoldable pub depth_done : Bool → Replica → Scheduler
unfolding refresh_queue_depth read_depth
depth_done ok p =
    if ltb 0 p.scheduler.depth_reads
    then refresh_queue_depth (read_depth ok p.tasks) p.scheduler
    else p.scheduler

-- What the event does to the election, with the callback that it ends in.
unfoldable pub elect : Election → Event → Election × Notice
unfolding connect_ended connect_refused answered recorded handle_disconnect poll_fired
    reconnect_fired stop closed
elect e (connects i) = (connect_ended i (get i e.connecting) e, quiet)
elect e (connect_fails i) = (connect_refused i (get i e.connecting) e, quiet)
elect e (lock_answers i granted) = (answered i granted (get i e.attempts) e, quiet)
elect e (records i) = recorded i (get i e.attempts) e
elect e (disconnects c) = handle_disconnect c e
elect e (poll_fires i) = (poll_fired i (get i e.poll_timers) e, quiet)
elect e (reconnect_fires i) = (reconnect_fired i (get i e.reconnect_timers) e, quiet)
elect e stops = stop e
elect e closes = closed e
elect e _ = (e, quiet)

unfoldable pub react : Replica → Event → Replica
unfolding elect notice reap reap_failed depth_done step
react p (reaper_fires i) = record p {
  scheduler = record p.scheduler {
    reaper = fires i (get i p.scheduler.reaper.timers) p.scheduler.reaper;
  };
}
react p (reaps now locked) = reap now locked p
react p reap_fails = record p { scheduler = reap_failed p.scheduler }
react p (depth_fires i) = record p {
  scheduler = depth_fired i (get i p.scheduler.depth_timers) p.scheduler;
}
react p (depth_read ok) = record p { scheduler = depth_done ok p }
react p (others query) = record p { tasks = step p.tasks query }
react p event = record p { scheduler = notice (elect p.scheduler.election event) p.scheduler }

unfoldable pub reacts : Replica → List Event → Replica
unfolding react
reacts p [] = p
reacts p (e ∷ es) = reacts (react p e) es
