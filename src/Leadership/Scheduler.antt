-- ===== src/Leadership/Scheduler.antt =====
-- packages/scheduler/src/scheduler.ts: the election's callbacks start and stop the reaper and the
-- timer of the queue-depth gauge.
use karya_kram.Base.{ℕ, ◌+◌, ◌-◌, Bool, Option, none, some, [], ◌∷◌, ◌++◌, number_eq, if◌then◌else◌}
use karya_kram.Base.Dict.{remove}
use karya_kram.Base.Timers.{Timers, clear_timer}
use karya_kram.Llm.{get_or}
use karya_kram.Queue.Ops.{QueueDepth}
use karya_kram.Leadership.Election.{Election, Notice, quiet, acquired, lost, new_election}
use karya_kram.Leadership.Reaper.{Reaper, new_reaper}
use karya_kram.Leadership.Reaper

-- `gauge` is the last depth that was set; without metrics no depth is read.
pub record Scheduler : Type 0 where
  pub election : Election
  pub reaper : Reaper
  pub metrics : Bool
  pub depth_ms : ℕ
  pub depth_timer : Option ℕ
  pub depth_timers : Timers
  pub next_depth : ℕ
  pub depth_reads : ℕ
  pub gauge : Option QueueDepth

abbrev pub schedule_queue_depth_refresh : Scheduler → Scheduler
schedule_queue_depth_refresh s = record s {
  depth_timer = some s.next_depth;
  depth_timers = s.depth_timers ++ (s.next_depth, s.depth_ms) ∷ [];
  next_depth = s.next_depth + 1;
}

unfoldable pub on_acquire : Scheduler → Scheduler
unfolding Reaper.start
on_acquire s =
    let started = record s { reaper = Reaper.start s.reaper } in
    if s.metrics then schedule_queue_depth_refresh started else started

unfoldable pub on_lose : Scheduler → Scheduler
unfolding Reaper.stop
on_lose s = record s {
  reaper = Reaper.stop s.reaper;
  depth_timer = none;
  depth_timers = clear_timer s.depth_timer s.depth_timers;
}

unfoldable pub notice : Election × Notice → Scheduler → Scheduler
unfolding on_acquire on_lose
notice (e, quiet) s = record s { election = e }
notice (e, acquired) s = on_acquire (record s { election = e })
notice (e, lost) s = on_lose (record s { election = e })

abbrev pub depth_fired : ℕ → Option ℕ → Scheduler → Scheduler
depth_fired i none s = s
depth_fired i (some d) s = record s {
  depth_timers = remove i s.depth_timers;
  depth_reads = s.depth_reads + 1;
}

abbrev pub set_gauge : Option QueueDepth → Option QueueDepth → Option QueueDepth
set_gauge none old = old
set_gauge (some depth) old = some depth

-- `refreshQueueDepth` with the depth that was read, if the query did not fail: the timer goes on while
-- the replica leads.
unfoldable pub refresh_queue_depth : Option QueueDepth → Scheduler → Scheduler
refresh_queue_depth depth s =
    let read = record s { depth_reads = s.depth_reads - 1; gauge = set_gauge depth s.gauge } in
    if s.election.leader then schedule_queue_depth_refresh read else read

pub record SchedulerConfig : Type 0 where
  pub election_poll_ms : Option ℕ
  pub reconnect_delay_ms : Option ℕ
  pub reaper_interval_ms : Option ℕ
  pub reaper_limit : Option ℕ
  pub queue_depth_interval_ms : Option ℕ

-- The constructor and `start`.
unfoldable pub start : SchedulerConfig → Bool → Scheduler
unfolding new_election
start config metrics = record {
  election = new_election config.election_poll_ms config.reconnect_delay_ms;
  reaper = new_reaper config.reaper_interval_ms config.reaper_limit;
  metrics = metrics;
  depth_ms = get_or 5000 config.queue_depth_interval_ms;
  depth_timer = none;
  depth_timers = [];
  next_depth = 0;
  depth_reads = 0;
  gauge = none;
}
