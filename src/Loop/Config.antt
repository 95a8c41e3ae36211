-- ===== src/Loop/Config.antt =====
-- packages/worker-sdk/src/config.ts. Numbers are natural; the id that `generateWorkerId` draws is an
-- argument.
use karya_kram.Base.{ℕ, ◌*◌, String, Option, leb, ltb, if◌then◌else◌, decimal}
use Prim.Native.String.{◌++◌ as ◌+s+◌}
use karya_kram.Base.Throws.{Throws, threw, returned}
use karya_kram.Llm.{get_or}
use karya_kram.Queue.Task.{TaskType}

pub record WorkerConfig : Type 0 where
  pub worker_id : String
  pub queue : String
  pub task_type : Option TaskType
  pub poll_interval_ms : ℕ
  pub max_poll_interval_ms : ℕ
  pub lease_seconds : ℕ
  pub heartbeat_interval_ms : ℕ
  pub max_concurrency : ℕ
  pub drain_timeout_ms : ℕ
  pub notify_connection_string : Option String

pub record WorkerConfigInput : Type 0 where
  pub worker_id : Option String
  pub queue : Option String
  pub task_type : Option TaskType
  pub poll_interval_ms : Option ℕ
  pub max_poll_interval_ms : Option ℕ
  pub lease_seconds : Option ℕ
  pub heartbeat_interval_ms : Option ℕ
  pub max_concurrency : ℕ
  pub drain_timeout_ms : Option ℕ
  pub notify_connection_string : Option String

abbrev pub lease_seconds_of : WorkerConfigInput → ℕ
lease_seconds_of input = get_or 30 input.lease_seconds

abbrev pub heartbeat_interval_of : WorkerConfigInput → ℕ
heartbeat_interval_of input = get_or 10000 input.heartbeat_interval_ms

abbrev pub poll_interval_of : WorkerConfigInput → ℕ
poll_interval_of input = get_or 100 input.poll_interval_ms

abbrev pub max_poll_interval_of : WorkerConfigInput → ℕ
max_poll_interval_of input = get_or 2000 input.max_poll_interval_ms

abbrev pub config_of : String → WorkerConfigInput → WorkerConfig
config_of generated input = record {
  worker_id = get_or generated input.worker_id;
  queue = get_or "default" input.queue;
  task_type = input.task_type;
  poll_interval_ms = poll_interval_of input;
  max_poll_interval_ms = max_poll_interval_of input;
  lease_seconds = lease_seconds_of input;
  heartbeat_interval_ms = heartbeat_interval_of input;
  max_concurrency = input.max_concurrency;
  drain_timeout_ms = get_or 30000 input.drain_timeout_ms;
  notify_connection_string = input.notify_connection_string;
}

unfoldable pub resolve_worker_config : String → WorkerConfigInput → Throws WorkerConfig
resolve_worker_config generated input =
    let lease = lease_seconds_of input in
    let beat = heartbeat_interval_of input in
    let poll = poll_interval_of input in
    let max_poll = max_poll_interval_of input in
    if leb input.max_concurrency 0
    then threw ("maxConcurrency must be a positive integer, got " +s+ decimal input.max_concurrency)
    else if leb lease 0
    then threw ("leaseSeconds must be > 0, got " +s+ decimal lease)
    else if leb beat 0
    then threw ("heartbeatIntervalMs must be > 0, got " +s+ decimal beat)
    else if leb (lease * 1000) beat
    then threw (
        "heartbeatIntervalMs ("
        +s+ decimal beat
        +s+ "ms) must be less than leaseSeconds * 1000 ("
        +s+ decimal (lease * 1000)
        +s+ "ms), otherwise leases can expire between heartbeats")
    else if ltb max_poll poll
    then threw (
        "maxPollIntervalMs ("
        +s+ decimal max_poll
        +s+ ") must be >= pollIntervalMs ("
        +s+ decimal poll
        +s+ ")")
    else returned (config_of generated input)
