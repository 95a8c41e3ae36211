-- ===== src/Leadership/Election.antt =====
-- packages/scheduler/src/leaderElection.ts. Each stretch between two awaits is one function; what the
-- awaited call gave is an argument. Postgres decides who gets the lock, so the answer is given.
use karya_kram.Base.{
  ℕ, ◌+◌, Bool, true, false, Option, none, some, [], ◌∷◌, ◌++◌, number_eq, if◌then◌else◌,
  is_some_of,
}
use karya_kram.Base.Dict.{Dict, put, remove}
use karya_kram.Llm.{get_or}
use karya_kram.Base.Timers.{Timers, clear_timer}

-- An `attemptAcquire` that awaits the lock, or the row of `scheduler_leadership`.
pub data Attempt : Type 0 where
  trying recording : Attempt

-- `client` is the number of the connection; `connecting` are the calls of `connect` that await it,
-- and `closing` a `stop` of a leader that awaits the end of the connection.
pub record Election : Type 0 where
  pub poll_ms : ℕ
  pub reconnect_ms : ℕ
  pub client : Option ℕ
  pub leader : Bool
  pub stopped : Bool
  pub poll_timer : Option ℕ
  pub poll_timers : Timers
  pub reconnect_timer : Option ℕ
  pub reconnect_timers : Timers
  pub connecting : Dict ℕ ℕ
  pub attempts : Dict ℕ Attempt
  pub next : ℕ
  pub closing : Bool

-- The callback that is called at the end of a stretch.
pub data Notice : Type 0 where
  quiet acquired lost : Notice

unfoldable pub connect : Election → Election
connect e =
    if e.stopped
    then e
    else record e { connecting = e.connecting ++ (e.next, 0) ∷ []; next = e.next + 1 }

unfoldable pub schedule_reconnect : Election → Election
schedule_reconnect e = if e.stopped then e else record e {
  reconnect_timer = some e.next;
  reconnect_timers = e.reconnect_timers ++ (e.next, e.reconnect_ms) ∷ [];
  next = e.next + 1;
}

abbrev pub has_client : Option ℕ → Bool
has_client none = false
has_client (some c) = true

-- `attemptAcquire` up to its first await.
unfoldable pub attempt_acquire : Election → Election
attempt_acquire e =
    if e.stopped
    then e
    else if has_client e.client
    then record e { attempts = e.attempts ++ (e.next, trying) ∷ []; next = e.next + 1 }
    else e

-- The connection numbered `i` is up, or was refused.
unfoldable pub connected : ℕ → Election → Election
unfolding attempt_acquire
connected i e =
    let left = record e { connecting = remove i e.connecting } in
    if e.stopped then left else attempt_acquire (record left { client = some i })

unfoldable pub connect_failed : ℕ → Election → Election
unfolding schedule_reconnect
connect_failed i e = schedule_reconnect (record e { connecting = remove i e.connecting })

abbrev pub schedule_poll : Election → Election
schedule_poll e = record e {
  poll_timer = some e.next;
  poll_timers = e.poll_timers ++ (e.next, e.poll_ms) ∷ [];
  next = e.next + 1;
}

-- After the lock's query: `granted` is false also where the query failed.
unfoldable pub lock_answered : ℕ → Bool → Election → Election
lock_answered i granted e =
    let left = record e { attempts = remove i e.attempts } in
    if e.stopped
    then left
    else if granted
    then record e { attempts = put i recording e.attempts }
    else schedule_poll left

-- After `recordLeadership`, whether it failed or not.
unfoldable pub leadership_recorded : ℕ → Election → Election × Notice
leadership_recorded i e =
    let left = record e { attempts = remove i e.attempts } in
    if e.stopped then (left, quiet) else (record left { leader = true }, acquired)

abbrev pub step_down : Election → Election × Notice
step_down e = if e.leader then (record e { leader = false }, lost) else (e, quiet)

-- An error or the end of connection `c`; one that is superseded is ignored.
unfoldable pub handle_disconnect : ℕ → Election → Election × Notice
unfolding schedule_reconnect
handle_disconnect c e =
    if is_some_of c e.client
    then (let dropped =
          step_down
            (record e { client = none; poll_timers = clear_timer e.poll_timer e.poll_timers }) in
        (schedule_reconnect dropped.0, dropped.1))
    else (e, quiet)

-- `stop` up to the end of its connection; without one it ends at once.
unfoldable pub stop : Election → Election × Notice
stop e =
    let halted = record e {
      stopped = true;
      poll_timers = clear_timer e.poll_timer e.poll_timers;
      reconnect_timers = clear_timer e.reconnect_timer e.reconnect_timers;
      client = none;
      leader = false;
    } in
    if has_client e.client
    then (record halted { closing = if e.leader then true else e.closing }, quiet)
    else (halted, if e.leader then lost else quiet)

unfoldable pub closed : Election → Election × Notice
closed e = if e.closing then (record e { closing = false }, lost) else (e, quiet)

-- The constructor's state, after `start`.
unfoldable pub new_election : Option ℕ → Option ℕ → Election
unfolding connect
new_election poll_ms reconnect_ms = connect (record {
  poll_ms = get_or 1000 poll_ms;
  reconnect_ms = get_or 500 reconnect_ms;
  client = none;
  leader = false;
  stopped = false;
  poll_timer = none;
  poll_timers = [];
  reconnect_timer = none;
  reconnect_timers = [];
  connecting = [];
  attempts = [];
  next = 0;
  closing = false;
})
