-- ===== src/Worker/KeptMoves.antt =====
-- What every transaction keeps, along a sequence of handler runs, entry points and queries.
use karya_kram.Base.{
  true, ℕ, ◌≡◌, refl, String, Option, none, some, List, [], ◌∷◌, All, Bool-cases, Option-cases, inl,
  inr, text_eq, number_eq, not, ◌&&◌,
}
use karya_kram.Base.Dict.{get}
use karya_kram.Json.{Value}
use karya_kram.Workflow.Events.{
  workflow_started, timer_fired, signal_received, cancellation_requested, WorkflowEventPayload,
  StoredWorkflowEvent, LlmRequestedEvent,
}
use karya_kram.Queue.Task.{Task}
use karya_kram.Queue.Preserve.{WhenSome}
use karya_kram.Store.Events.{Db, AppendEventsResult, append_events, get_events}
use karya_kram.Worker.Fencing.{
  has_type, HandlerError, Handled, after_alone, append_alone, at_seq, scheduled_event_seq,
  append_step_outcome, after_append,
}
use karya_kram.Worker.Handlers.{
  has_outcome, Decision, done, append, raises, carry_out, activity_handler, timer_handler,
  send_signal, cancel_workflow, new_execution, start_workflow,
}
use karya_kram.Worker.Replays.{workflow_replay_handler}
use karya_kram.Worker.LlmHandler.{
  llm_outcome_types, LlmWorker, Outcome, Completion, responded, provider_failed, ResolvedRequest,
  found, unavailable, completion_outcome, request_outcome, then_throw, record_outcome, llm_step,
  llm_handler, exhausted,
}
use karya_kram.Worker.ToolHandler.{tool_handler}
use karya_kram.Worker.KeptTools.{tool_step-P}
use karya_kram.Replay.Program.{StepKind}
use karya_kram.Worker.Guarded.{recorded-P}
use karya_kram.Worker.Moves.{
  Move, runs_workflow, runs_activity, runs_llm, runs_tool, fires_timer, signals, cancels, starts,
  queries, move, moves,
}
use karya_kram.Worker.Kept.{
  IsPlain, IsKept, AllPlain, workflow_decision-AllPlain, activity_decision-AllPlain,
}

-- The event that an LLM step records refers to the step.
abbrev Refers : ℕ → Option WorkflowEventPayload → Type 0
Refers seq none = Unit
Refers seq (some event) =
    (scheduled_event_seq event ≡ some seq) × (has_type llm_outcome_types event ≡ true)

completion_outcome-Refers :
    (w : LlmWorker) (task : Task) (e : LlmRequestedEvent) (seq : ℕ) (c : Completion)
    → Refers seq (completion_outcome w task e seq c).event
completion_outcome-Refers w task e seq (responded r) = (refl, refl)
completion_outcome-Refers w task e seq (provider_failed err) =
    elim (Bool-cases (err.retryable && not (exhausted task))) [
      | inl h ↦ rw (h, Refers) tt
      | inr h ↦ rw (h, Refers) (refl, refl)
    ]

request_outcome-Refers :
    (w : LlmWorker) (task : Task) (e : LlmRequestedEvent) (seq : ℕ) (r : ResolvedRequest)
    → Refers seq (request_outcome w task e seq r).event
request_outcome-Refers w task e seq (found request) =
    completion_outcome-Refers w task e seq (w.complete request)
request_outcome-Refers w task e seq (unavailable reason) = (refl, refl)

then_throw-tables : (o : Option HandlerError) (h : Handled) → (then_throw o h).0 ≡ h.0
then_throw-tables o (db, none) = refl
then_throw-tables o (db, some e) = refl

module _ (P : Db → Type 0) (keeps : IsKept P) where
  after_alone-P :
      (db : Db) (o : Option (Db × AppendEventsResult))
      → P db
      → WhenSome (λ r. P r.0) o
      → P (after_alone db o).0
  after_alone-P db none h k = h
  after_alone-P db (some r) h k = k

  append_alone-P :
      (now : ℕ) (trace : Option String) (wf : String) (es : List WorkflowEventPayload) (db : Db)
      → All IsPlain es
      → P db
      → P (append_alone now trace wf es db).0
  append_alone-P now trace wf es db plain h =
      after_alone-P db (append_events now trace (record { workflow_id = wf; events = es }) db) h
        (keeps.appended now trace wf es db plain h)

  at_seq-P :
      (type : String) (task : Task) (db : Db) (next : ℕ → Handled) (o : Option ℕ)
      → P db
      → ((seq : ℕ) → P (next seq).0)
      → P (at_seq type task db next o).0
  at_seq-P type task db next none h k = h
  at_seq-P type task db next (some seq) h k = k seq

  carry_out-P :
      (now : ℕ) (trace : Option String) (wf : String) (d : Decision) (db : Db)
      → AllPlain d
      → P db
      → P (carry_out now trace wf d db).0
  carry_out-P now trace wf done db plain h = h
  carry_out-P now trace wf (append es) db plain h = append_alone-P now trace wf es db plain h
  carry_out-P now trace wf (raises e) db plain h = h

  record_outcome-P :
      (now : ℕ) (trace : Option String) (task : Task) (seq : ℕ) (o : Outcome) (db : Db)
      → Refers seq o.event
      → P db
      → P (record_outcome now trace task seq o db).0
  record_outcome-P now trace task seq o db refers h = split o.event refers
    where
      split :
          (event : Option WorkflowEventPayload)
          → Refers seq event
          → P
              (record_outcome now trace task seq
                (record { event = event; rethrown = o.rethrown })
                db).0
      split none r = h
      split (some event) r =
          rw
            (then_throw-tables o.rethrown
              (after_append db (append_step_outcome now trace task seq event llm_outcome_types db)))
            (recorded-P P now trace task seq event llm_outcome_types db h (λ none_yet.
              keeps.settled now trace task.workflow_id seq StepKind.llm event db r.0 r.1 none_yet
                h))

  llm_step-P :
      (w : LlmWorker) (now : ℕ) (trace : Option String) (task : Task) (seq : ℕ)
      (history : List StoredWorkflowEvent) (o : Option LlmRequestedEvent) (db : Db)
      → P db
      → P (llm_step w now trace task seq history o db).0
  llm_step-P w now trace task seq history none db h = h
  llm_step-P w now trace task seq history (some e) db h =
      elim (Bool-cases (has_outcome llm_outcome_types seq history)) [
        | inl b ↦ rw b h
        | inr b ↦
            rw b
              (record_outcome-P now trace task seq _ db (request_outcome-Refers w task e seq _) h)
      ]

  start_workflow-P :
      (now : ℕ) (trace : Option String) (wf type : String) (input : Value) (db : Db)
      → P db
      → P (start_workflow now trace wf type input db).0
  unfolding start_workflow
  start_workflow-P now trace wf type input db h = elim (Option-cases (get wf db.executions)) [
    | inl e ↦
        rw (e, start_workflow)
          (append_alone-P now trace wf (workflow_started type input ∷ []) (new_execution wf db)
            (refl, tt) (keeps.started wf db e h))
    | inr (s, e) ↦ rw (e, start_workflow) h
  ]

  move-P : (db : Db) (m : Move) → P db → P (move db m)
  unfolding move workflow_replay_handler activity_handler llm_handler tool_handler timer_handler
      send_signal cancel_workflow
  move-P db (runs_workflow hash registry llm now trace task read) h =
      carry_out-P now trace task.workflow_id _ db
        (workflow_decision-AllPlain hash registry now llm task (get_events task.workflow_id read)) h
  move-P db (runs_activity registry now trace task read) h =
      at_seq-P "activity" task db _ task.scheduled_event_seq h (λ seq.
        carry_out-P now trace task.workflow_id _ db
          (activity_decision-AllPlain registry task seq (get_events task.workflow_id read)) h)
  move-P db (runs_llm w now trace task read) h =
      at_seq-P "llm" task db _ task.scheduled_event_seq h
        (λ seq. llm_step-P w now trace task seq (get_events task.workflow_id read) _ db h)
  move-P db (runs_tool w now trace task latency read early) h =
      at_seq-P "tool" task db _ task.scheduled_event_seq h (λ seq.
        tool_step-P P keeps w now trace task seq (get_events task.workflow_id read) latency early db
          _ h)
  move-P db (fires_timer now trace task) h =
      at_seq-P "timer" task db _ task.scheduled_event_seq h
        (λ seq. append_alone-P now trace task.workflow_id (timer_fired seq ∷ []) db (refl, tt) h)
  move-P db (signals now trace wf name payload) h =
      append_alone-P now trace wf (signal_received name payload ∷ []) db (refl, tt) h
  move-P db (cancels now trace wf reason) h =
      append_alone-P now trace wf (cancellation_requested reason ∷ []) db (refl, tt) h
  move-P db (starts now trace wf type input) h = start_workflow-P now trace wf type input db h
  move-P db (queries q) h = keeps.queried q db h

  pub moves-P : (db : Db) (ms : List Move) → P db → P (moves db ms)
  unfolding moves
  moves-P db [] h = h
  moves-P db (m ∷ ms) h = moves-P (move db m) ms (move-P db m h)
