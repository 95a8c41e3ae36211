-- ===== src/Loop/Accepted.antt =====
-- Which configurations a worker starts with (config.ts, backoff.ts, worker.ts).
use karya_kram.Base.{◌*◌, ◌≤◌, ◌<◌, ◌≡◌, refl, String, ◌⊎◌, inl, inr, arith, leb, ltb, Bool-cases}
use karya_kram.Base.Throws.{threw, returned}
use karya_kram.Loop.Config.{
  WorkerConfigInput, resolve_worker_config, config_of, lease_seconds_of, heartbeat_interval_of,
  poll_interval_of, max_poll_interval_of,
}
use karya_kram.Loop.Polling.{NewWorker, new_worker, new_poll_backoff, poll_backoff_of}

-- A worker can run tasks, polls with a positive interval that can only grow, and renews each lease
-- before it ends.
pub record Accepted (input : WorkerConfigInput) : Type 0 where
  pub runs : 0 < input.max_concurrency
  pub beats : 0 < heartbeat_interval_of input
  pub renews : heartbeat_interval_of input < lease_seconds_of input * 1000
  pub polls : 0 < poll_interval_of input
  pub eases : poll_interval_of input ≤ max_poll_interval_of input

abbrev pub worker_of : String → WorkerConfigInput → NewWorker
worker_of generated input = record {
  config = config_of generated input;
  backoff = record {
    config = poll_backoff_of (config_of generated input);
    current_ms = poll_interval_of input;
  };
}

-- The constructor of a worker returns the worker of the configuration where maxConcurrency, the
-- heartbeat interval and the poll interval are positive, the heartbeat interval is below the lease
-- and the poll interval is at most its maximum; for any other configuration it throws.
pub new_worker-Accepted :
    (generated : String) (input : WorkerConfigInput)
    → (Accepted input × (new_worker generated input ≡ returned (worker_of generated input)))
      ⊎ ((¬ Accepted input) × (m : String) × (new_worker generated input ≡ threw m))
unfolding new_worker resolve_worker_config new_poll_backoff
new_worker-Accepted generated input =
    let lease = lease_seconds_of input in
    let beat = heartbeat_interval_of input in
    let poll = poll_interval_of input in
    let max_poll = max_poll_interval_of input in
    elim (Bool-cases (leb input.max_concurrency 0)) [
      | inl a ↦ rw a (inr ((λ v. ground (arith, v.runs)), _, refl))
      | inr a ↦ rw a (elim (Bool-cases (leb lease 0)) [
        | inl b ↦ rw b (inr ((λ v. ground (arith, v.renews)), _, refl))
        | inr b ↦ rw b (elim (Bool-cases (leb beat 0)) [
          | inl c ↦ rw c (inr ((λ v. ground (arith, v.beats)), _, refl))
          | inr c ↦ rw c (elim (Bool-cases (leb (lease * 1000) beat)) [
            | inl d ↦ rw d (inr ((λ v. ground (arith, v.renews)), _, refl))
            | inr d ↦ rw d (elim (Bool-cases (ltb max_poll poll)) [
              | inl e ↦ rw e (inr ((λ v. ground (arith, v.eases)), _, refl))
              | inr e ↦ rw e (elim (Bool-cases (leb poll 0)) [
                | inl f ↦ rw f (inr ((λ v. ground (arith, v.polls)), _, refl))
                | inr f ↦
                    rw (f, e)
                      (inl (
                        record {
                          runs = ground arith;
                          beats = ground arith;
                          renews = ground arith;
                          polls = ground arith;
                          eases = ground arith;
                        },
                        refl,
                      ))
              ])
            ])
          ])
        ])
      ])
    ]
