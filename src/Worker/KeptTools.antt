-- ===== src/Worker/KeptTools.antt =====
-- What every transaction keeps, along the handler of tool tasks (toolHandler.ts).
use karya_kram.Base.{
  ℕ, ◌≡◌, refl, String, false, not, ◌&&◌, Option, none, some, List, [], ◌∷◌, ◌++◌, any, leb, ◌==◌,
  text_eq, Bool-cases, inl, inr,
}
use Prim.Native.String.{◌++◌ as ◌+s+◌}
use karya_kram.Workflow.Events.{StoredWorkflowEvent, ToolRequestedEvent}
use karya_kram.Queue.Task.{Task}
use karya_kram.Queue.Preserve.{WhenSome}
use karya_kram.Store.Events.{Db, AppendEventsResult}
use karya_kram.Worker.Fencing.{
  HandlerError, Handled, owns_lease, has_step_outcome, append_step_outcome, after_append,
}
use karya_kram.Worker.Handlers.{has_outcome}
use karya_kram.Worker.ToolHandler.{
  tool_outcome_types, ToolError, ToolRun, ran, raised, Tool, ToolWorker, Execution, executed,
  thrown, after_run, after_claim, Ended, committed, lease_gone, tool_threw, completed_event,
  after_append_completed, finish_execution, execute_atomically, failed_event, then_rethrow,
  fail_step, after_execution, run_registered, after_validation, refusal, hash_tool_call, tool_step,
}
use karya_kram.Worker.Ledger.{is_claim_of, claim_row, claim_tool_execution}
use karya_kram.Worker.Kept.{IsKept}
use karya_kram.Replay.Program.{StepKind}
use karya_kram.Worker.Guarded.{recorded-P}

module _ (P : Db → Type 0) (keeps : IsKept P) where
  abbrev ExecutionHas : Execution → Type 0
  ExecutionHas (executed db result latency) = P db
  ExecutionHas (thrown err) = Unit

  abbrev EndedHas : Ended → Type 0
  EndedHas (committed db) = P db
  EndedHas lease_gone = Unit
  EndedHas (tool_threw err) = Unit

  claim-P :
      (tool : Tool) (wf : String) (e : ToolRequestedEvent) (latency : ℕ) (db : Db)
      → P db
      → ExecutionHas (after_claim tool wf e latency (claim_tool_execution wf e db))
  unfolding claim_tool_execution
  claim-P tool wf e latency db h = elim (Bool-cases (any (is_claim_of wf e.step_id) db.ledger)) [
    | inl c ↦ rw (c, claim_tool_execution) h
    | inr c ↦ rw (c, claim_tool_execution) (run-P c (tool e.args (wf +s+ ":" +s+ e.step_id)))
  ]
    where
      run-P :
          any (is_claim_of wf e.step_id) db.ledger ≡ false
          → (r : ToolRun)
          → ExecutionHas
              (after_run wf e latency (record db { ledger = db.ledger ++ claim_row wf e ∷ [] }) r)
      run-P c (ran result effects) = keeps.ran wf e result effects db c h
      run-P c (raised err) = tt

  append-P :
      (o : Option (Db × AppendEventsResult))
      → WhenSome (λ r. P r.0) o
      → EndedHas (after_append_completed o)
  append-P none h = tt
  append-P (some r) h = h

  finish-P :
      (now : ℕ) (trace : Option String) (task : Task) (e : ToolRequestedEvent) (seq : ℕ)
      (x : Execution)
      → ExecutionHas x
      → EndedHas (finish_execution now trace task e seq x)
  finish-P now trace task e seq (thrown err) h = tt
  finish-P now trace task e seq (executed db result latency) h =
      elim (Bool-cases (owns_lease task db)) [
        | inr o ↦ rw (o, EndedHas) tt
        | inl o ↦
            rw (o, EndedHas)
              (elim (Bool-cases (has_step_outcome task.workflow_id seq tool_outcome_types db)) [
                | inl b ↦ rw (b, EndedHas) h
                | inr b ↦
                    rw (b, EndedHas)
                      (append-P _ (
                        keeps.settled now trace task.workflow_id seq StepKind.tool
                          (completed_event task e seq result latency) db refl refl b h))
              ])
      ]

  execute-P :
      (now : ℕ) (trace : Option String) (task : Task) (e : ToolRequestedEvent) (seq : ℕ)
      (tool : Tool) (latency : ℕ) (early db : Db)
      → P db
      → EndedHas (execute_atomically now trace task e seq tool latency early db)
  unfolding execute_atomically
  execute-P now trace task e seq tool latency early db h =
      elim (Bool-cases (owns_lease task early)) [
        | inr o ↦ rw (o, EndedHas) tt
        | inl o ↦
            rw (o, EndedHas)
              (finish-P now trace task e seq _ (claim-P tool task.workflow_id e latency db h))
      ]

  then_rethrow-P : (o : Option HandlerError) (x : Handled) → P x.0 → P (then_rethrow o x).0
  then_rethrow-P o (db, none) h = h
  then_rethrow-P o (db, some e) h = h

  fail_step-P :
      (now : ℕ) (trace : Option String) (task : Task) (e : ToolRequestedEvent) (seq : ℕ)
      (err : ToolError) (db : Db)
      → P db
      → P (fail_step now trace task e seq err db).0
  fail_step-P now trace task e seq err db h =
      then_rethrow-P _
        (after_append db (
          append_step_outcome now trace task seq (failed_event task e seq err) tool_outcome_types
            db))
        (recorded-P P now trace task seq (failed_event task e seq err) tool_outcome_types db h (λ b.
          keeps.settled now trace task.workflow_id seq StepKind.tool (failed_event task e seq err)
            db refl refl b h))

  after_execution-P :
      (now : ℕ) (trace : Option String) (task : Task) (e : ToolRequestedEvent) (seq : ℕ) (db : Db)
      (x : Ended)
      → P db
      → EndedHas x
      → P (after_execution now trace task e seq db x).0
  after_execution-P now trace task e seq db (committed next) h k = k
  after_execution-P now trace task e seq db lease_gone h k = h
  after_execution-P now trace task e seq db (tool_threw err) h k =
      elim (Bool-cases (err.retryable && not (leb task.max_attempts task.attempt))) [
        | inl b ↦ rw b h
        | inr b ↦ rw b (fail_step-P now trace task e seq err db h)
      ]

  run_registered-P :
      (now : ℕ) (trace : Option String) (task : Task) (e : ToolRequestedEvent) (seq latency : ℕ)
      (early db : Db) (o : Option Tool)
      → P db
      → P (run_registered now trace task e seq latency early db o).0
  run_registered-P now trace task e seq latency early db none h = h
  run_registered-P now trace task e seq latency early db (some tool) h =
      after_execution-P now trace task e seq db _ h
        (execute-P now trace task e seq tool latency early db h)

  after_validation-P :
      (w : ToolWorker) (now : ℕ) (trace : Option String) (task : Task) (e : ToolRequestedEvent)
      (seq latency : ℕ) (early db : Db) (o : Option (String × String))
      → P db
      → P (after_validation w now trace task e seq latency early db o).0
  after_validation-P w now trace task e seq latency early db (some (m, c)) h =
      fail_step-P now trace task e seq (refusal (m, c)) db h
  after_validation-P w now trace task e seq latency early db none h =
      elim (Bool-cases (hash_tool_call w.hash e.tool e.args == e.args_hash)) [
        | inl b ↦ rw b (run_registered-P now trace task e seq latency early db (w.tool e.tool) h)
        | inr b ↦ rw b (fail_step-P now trace task e seq _ db h)
      ]

  pub tool_step-P :
      (w : ToolWorker) (now : ℕ) (trace : Option String) (task : Task) (seq : ℕ)
      (history : List StoredWorkflowEvent) (latency : ℕ) (early db : Db)
      (o : Option ToolRequestedEvent)
      → P db
      → P (tool_step w now trace task seq history latency early db o).0
  tool_step-P w now trace task seq history latency early db none h = h
  tool_step-P w now trace task seq history latency early db (some e) h =
      elim (Bool-cases (has_outcome tool_outcome_types seq history)) [
        | inl b ↦ rw b h
        | inr b ↦ rw b (
            after_validation-P w now trace task e seq latency early db (w.validate e.tool e.args) h)
      ]
