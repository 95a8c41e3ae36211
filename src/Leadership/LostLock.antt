-- ===== src/Leadership/LostLock.antt =====
-- A connection that drops while the leadership row is written (leaderElection.ts).
use karya_kram.Base.{
  ℕ, ◌+◌, ◌≡◌, refl, true, false, none, some, [], ◌∷◌, ◌++◌, arith, length, number_eq,
  length-append, beq_refl, is_some_of, Bool-cases, inl, inr,
}
use karya_kram.Base.Dict.{get, remove}
use karya_kram.Base.Timers.{clear_timer}
use karya_kram.Leadership.Election.{
  recording, Election, quiet, acquired, handle_disconnect, schedule_reconnect, leadership_recorded,
}
use karya_kram.Leadership.Reaper.{schedule_next}
use karya_kram.Leadership.Scheduler.{Scheduler, notice, on_acquire}
use karya_kram.Leadership.Events.{Replica, disconnects, records, recorded, elect, react, reacts}
use karya_kram.Leadership.Reaper as ReaperOps

-- The election after its connection `c` dropped, where it did not lead.
abbrev dropped : Election → Election
dropped e = record e {
  client = none;
  poll_timers = clear_timer e.poll_timer e.poll_timers;
  reconnect_timer = some e.next;
  reconnect_timers = e.reconnect_timers ++ (e.next, e.reconnect_ms) ∷ [];
  next = e.next + 1;
}

drop-quiet :
    (c : ℕ) (e : Election)
    → e.client ≡ some c
    → e.stopped ≡ false
    → e.leader ≡ false
    → handle_disconnect c e ≡ (dropped e, quiet)
unfolding handle_disconnect schedule_reconnect
drop-quiet c e connected going follower =
    let mine : is_some_of c e.client ≡ true = rw connected (beq_refl c) in
    simp (mine, going, follower) refl

record-leads :
    (i : ℕ) (e : Election)
    → e.stopped ≡ false
    → leadership_recorded i e
      ≡ (record e { attempts = remove i e.attempts; leader = true }, acquired)
unfolding leadership_recorded
record-leads i e going = simp going refl

acquire-starts :
    (s : Scheduler)
    → s.reaper.stopped ≡ false
    → ((on_acquire s).election ≡ s.election)
      × (length (on_acquire s).reaper.timers ≡ length s.reaper.timers + 1)
unfolding on_acquire ReaperOps.start schedule_next
acquire-starts s going =
    let grown = length-append s.reaper.timers ((s.reaper.next_timer, s.reaper.interval_ms) ∷ []) in
    elim (Bool-cases s.metrics) [
      | inl m ↦ simp (m, going) (refl, omega (arith, grown))
      | inr m ↦ simp (m, going) (refl, omega (arith, grown))
    ]

-- Where a replica that does not lead and was not stopped writes its leadership row, its reaper was
-- not stopped, and its connection drops before the write ends, then the replica leads after the
-- write, has no connection, and its reaper has one more timer.
pub leads_without_lock :
    (p : Replica) (i c : ℕ)
    → get i p.scheduler.election.attempts ≡ some recording
    → p.scheduler.election.client ≡ some c
    → p.scheduler.election.stopped ≡ false
    → p.scheduler.election.leader ≡ false
    → p.scheduler.reaper.stopped ≡ false
    → let after = (reacts p (disconnects c ∷ records i ∷ [])).scheduler in
      (after.election.leader ≡ true)
      × (after.election.client ≡ none)
      × (length after.reaper.timers ≡ length p.scheduler.reaper.timers + 1)
unfolding reacts react elect handle_disconnect schedule_reconnect recorded leadership_recorded
    notice on_acquire ReaperOps.start schedule_next
leads_without_lock p i c at connected going follower reaping =
    let gone = drop-quiet c p.scheduler.election connected going follower in
    let led = record-leads i (dropped p.scheduler.election) going in
    let starts =
      acquire-starts
        (record p.scheduler {
          election = record (dropped p.scheduler.election) {
            attempts = remove i p.scheduler.election.attempts;
            leader = true;
          };
        })
        reaping in
    rw (gone, at, led, starts.0) (refl, refl, starts.1)
