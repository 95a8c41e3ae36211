-- ===== src/Loop/Polling.antt =====
-- packages/worker-sdk/src/backoff.ts, and the constructor of the Worker class (worker.ts, lines 35 to
-- 51), which resolves the configuration and builds the poll backoff.
use karya_kram.Base.{ℕ, ◌*◌, min, String, leb, ltb, if◌then◌else◌, decimal}
use Prim.Native.String.{◌++◌ as ◌+s+◌}
use karya_kram.Base.Throws.{Throws, threw, returned}
use karya_kram.Loop.Config.{WorkerConfig, WorkerConfigInput, resolve_worker_config}

pub record PollBackoffConfig : Type 0 where
  pub min_ms : ℕ
  pub max_ms : ℕ
  pub multiplier : ℕ

pub record PollBackoff : Type 0 where
  pub config : PollBackoffConfig
  pub current_ms : ℕ

unfoldable pub new_poll_backoff : PollBackoffConfig → Throws PollBackoff
new_poll_backoff c =
    if leb c.min_ms 0
    then threw ("minMs must be > 0, got " +s+ decimal c.min_ms)
    else if ltb c.max_ms c.min_ms
    then threw
        ("maxMs (" +s+ decimal c.max_ms +s+ ") must be >= minMs (" +s+ decimal c.min_ms +s+ ")")
    else if leb c.multiplier 1
    then threw ("multiplier must be > 1, got " +s+ decimal c.multiplier)
    else returned (record { config = c; current_ms = c.min_ms })

abbrev pub delay_ms : PollBackoff → ℕ
delay_ms b = b.current_ms

abbrev pub on_empty : PollBackoff → PollBackoff
on_empty b = record b { current_ms = min (b.current_ms * b.config.multiplier) b.config.max_ms }

abbrev pub on_work : PollBackoff → PollBackoff
on_work b = record b { current_ms = b.config.min_ms }

-- What the constructor of a worker sets up.
pub record NewWorker : Type 0 where
  pub config : WorkerConfig
  pub backoff : PollBackoff

abbrev pub poll_backoff_of : WorkerConfig → PollBackoffConfig
poll_backoff_of c = record {
  min_ms = c.poll_interval_ms;
  max_ms = c.max_poll_interval_ms;
  multiplier = 2;
}

abbrev with_backoff : WorkerConfig → Throws PollBackoff → Throws NewWorker
with_backoff c (threw message) = threw message
with_backoff c (returned b) = returned (record { config = c; backoff = b })

abbrev with_config : Throws WorkerConfig → Throws NewWorker
unfolding new_poll_backoff
with_config (threw message) = threw message
with_config (returned c) = with_backoff c (new_poll_backoff (poll_backoff_of c))

unfoldable pub new_worker : String → WorkerConfigInput → Throws NewWorker
unfolding new_poll_backoff resolve_worker_config
new_worker generated input = with_config (resolve_worker_config generated input)
