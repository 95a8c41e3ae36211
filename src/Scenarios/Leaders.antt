-- ===== src/Scenarios/Leaders.antt =====
-- A replica that gets the lock, loses its connection and gets the lock again.
use karya_kram.Base.{◌+◌, ◌≤◌, ◌≡◌, refl, true, false, none, some, List, [], ◌∷◌, length, number_eq}
use karya_kram.Base.Dict.{get, put, remove}
use karya_kram.Queue.Steps.{empty}
use karya_kram.Leadership.Election.{recording}
use karya_kram.Leadership.Scheduler.{SchedulerConfig, start}
use karya_kram.Leadership.Events.{
  Replica, Event, connects, lock_answers, records, disconnects, reconnect_fires, reacts,
}
use karya_kram.Leadership.Led.{Led, reaping, reaper_follows}
use karya_kram.Leadership.NeverAgain.{never_again}
use karya_kram.Leadership.LostLock.{leads_without_lock}

abbrev config : SchedulerConfig
config = record {
  election_poll_ms = none;
  reconnect_delay_ms = none;
  reaper_interval_ms = none;
  reaper_limit = none;
  queue_depth_interval_ms = none;
}

abbrev replica : Replica
replica = record { scheduler = start config false; tasks = empty }

abbrev leading : List Event
leading = connects 0 ∷ lock_answers 1 true ∷ records 1 ∷ []

leads_and_reaps :
    ((reacts replica leading).scheduler.election.leader ≡ true)
    × (reaping (reacts replica leading).scheduler.reaper ≡ 1)
unfolding reacts start get put remove
leads_and_reaps = (refl, refl)

reaper_follows_example : Led (reacts replica leading).scheduler
reaper_follows_example = reaper_follows config false empty leading

-- The connection is lost, and the lock is granted on the next one.
abbrev leading_again : List Event
leading_again = reconnect_fires 2 ∷ connects 3 ∷ lock_answers 4 true ∷ records 4 ∷ []

abbrev dropped : Replica
dropped = reacts replica (connects 0 ∷ lock_answers 1 true ∷ records 1 ∷ disconnects 0 ∷ [])

dropped_stopped : dropped.scheduler.reaper.stopped ≡ true
unfolding reacts start get put remove
dropped_stopped = refl

leads_again : (reacts dropped leading_again).scheduler.election.leader ≡ true
unfolding reacts start get put remove
leads_again = refl

never_again_example :
    ((reacts dropped leading_again).scheduler.reaper.stopped ≡ true)
    × (reaping (reacts dropped leading_again).scheduler.reaper ≤ reaping dropped.scheduler.reaper)
never_again_example = never_again dropped leading_again dropped_stopped

-- The lock is granted, and the row is being written.
abbrev writing : Replica
writing = reacts replica (connects 0 ∷ lock_answers 1 true ∷ [])

writing_attempt : get 1 writing.scheduler.election.attempts ≡ some recording
unfolding reacts start get put remove
writing_attempt = refl

writing_state :
    (writing.scheduler.election.client ≡ some 0)
    × (writing.scheduler.election.stopped ≡ false)
    × (writing.scheduler.election.leader ≡ false)
    × (writing.scheduler.reaper.stopped ≡ false)
unfolding reacts start get put remove
writing_state = (refl, refl, refl, refl)

leads_without_lock_example :
    let after = (reacts writing (disconnects 0 ∷ records 1 ∷ [])).scheduler in
    (after.election.leader ≡ true)
    × (after.election.client ≡ none)
    × (length after.reaper.timers ≡ length writing.scheduler.reaper.timers + 1)
leads_without_lock_example =
    leads_without_lock writing 1 0 writing_attempt writing_state.0 writing_state.1 writing_state.2
      writing_state.3
