-- ===== src/Leadership/Reaper.antt =====
-- packages/worker-sdk/src/reaper.ts. `ticks` counts the ticks that await their query.
use karya_kram.Base.{
  ℕ, ◌+◌, ◌-◌, Bool, true, false, Option, none, some, [], ◌∷◌, ◌++◌, number_eq, if◌then◌else◌,
}
use karya_kram.Base.Dict.{remove}
use karya_kram.Llm.{get_or}
use karya_kram.Base.Timers.{Timers, clear_timer}

pub record Reaper : Type 0 where
  pub interval_ms : ℕ
  pub limit : ℕ
  pub timer : Option ℕ
  pub timers : Timers
  pub next_timer : ℕ
  pub ticks : ℕ
  pub stopped : Bool

unfoldable pub schedule_next : Reaper → Reaper
schedule_next r = if r.stopped then r else record r {
  timer = some r.next_timer;
  timers = r.timers ++ (r.next_timer, r.interval_ms) ∷ [];
  next_timer = r.next_timer + 1;
}

unfoldable pub start : Reaper → Reaper
unfolding schedule_next
start r = schedule_next r

abbrev pub fires : ℕ → Option ℕ → Reaper → Reaper
fires i none r = r
fires i (some delay) r = record r { timers = remove i r.timers; ticks = r.ticks + 1 }

-- A tick after its query.
unfoldable pub tick_ends : Reaper → Reaper
unfolding schedule_next
tick_ends r = schedule_next (record r { ticks = r.ticks - 1 })

unfoldable pub stop : Reaper → Reaper
stop r = record r { stopped = true; timers = clear_timer r.timer r.timers }

abbrev pub new_reaper : Option ℕ → Option ℕ → Reaper
new_reaper interval_ms limit = record {
  interval_ms = get_or 5000 interval_ms;
  limit = get_or 100 limit;
  timer = none;
  timers = [];
  next_timer = 0;
  ticks = 0;
  stopped = false;
}
