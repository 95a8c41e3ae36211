-- ===== src/Worker/Kept.antt =====
-- What a transaction may keep, and the events that the handlers decide on.
use Prim.Native.String.{◌++◌ as ◌+s+◌}
use karya_kram.Base.{
  true, ◌||◌, decimal, ℕ, ◌≡◌, refl, String, false, Option, none, some, List, [], ◌∷◌, map, All,
  Bool-cases, Option-cases, inl, inr, text_eq, number_eq, any, ◌++◌,
}
use karya_kram.Base.Dict.{get}
use karya_kram.Json.{Value}
use karya_kram.Workflow.Events.{ToolRequestedEvent, WorkflowEventPayload, StoredWorkflowEvent}
use karya_kram.Queue.Task.{Task}
use karya_kram.Queue.Preserve.{WhenSome}
use karya_kram.Queue.Steps.{Query, step}
use karya_kram.Store.Events.{Db, append_events}
use karya_kram.Replay.Program.{
  StepKind, WorkflowCommand, schedule_activity, complete_workflow, fail_workflow, schedule_timer,
  request_llm_call, request_tool_call, ReplayOutcome, threw, replayed, activity_mismatch,
  step_request_mismatch, WorkflowFn,
}
use karya_kram.Worker.Fencing.{has_type, scheduled_event_seq, has_step_outcome}
use karya_kram.Worker.Handlers.{
  FnResult, returned, raised, ActivityRegistry, event_at, has_outcome, activity_outcome_types,
  scheduled_activity, outcome_event, Decision, done, append, raises, activity_decision,
  new_execution,
}
use karya_kram.Worker.Replays.{
  LlmStepConfig, Registry, command_to_event, append_commands, after_replay, run_workflow,
  cancellation_request, started_event, is_terminal, workflow_decision,
}
use karya_kram.Worker.LlmHandler.{llm_outcome_types}
use karya_kram.Worker.ToolHandler.{tool_outcome_types}
use karya_kram.Worker.Ledger.{is_claim_of, claim_row, complete_tool_execution, write_effects}

-- The types of the outcomes of a step.
abbrev pub step_types : StepKind → List String
step_types StepKind.llm = llm_outcome_types
step_types StepKind.tool = tool_outcome_types

-- An event that is not the outcome of an LLM or tool step.
abbrev pub IsPlain : WorkflowEventPayload → Type 0
IsPlain e = (has_type llm_outcome_types e || has_type tool_outcome_types e) ≡ false

pub record IsKept (P : Db → Type 0) : Type 0 where
  pub appended :
      (now : ℕ) (trace : Option String) (wf : String) (es : List WorkflowEventPayload) (db : Db)
      → All IsPlain es
      → P db
      → WhenSome
          (λ r. P r.0)
          (append_events now trace (record { workflow_id = wf; events = es }) db)
  -- An outcome is appended to a step that has none.
  pub settled :
      (now : ℕ) (trace : Option String) (wf : String) (seq : ℕ) (kind : StepKind)
      (event : WorkflowEventPayload) (db : Db)
      → scheduled_event_seq event ≡ some seq
      → has_type (step_types kind) event ≡ true
      → has_step_outcome wf seq (step_types kind) db ≡ false
      → P db
      → WhenSome
          (λ r. P r.0)
          (append_events now trace (record { workflow_id = wf; events = event ∷ [] }) db)
  pub ran :
      (wf : String) (e : ToolRequestedEvent) (result : Value) (effects : List (String × Value))
      (db : Db)
      → any (is_claim_of wf e.step_id) db.ledger ≡ false
      → P db
      → P (
          complete_tool_execution wf e.step_id result (
            write_effects wf e.step_id effects
              (record db { ledger = db.ledger ++ claim_row wf e ∷ [] })))
  pub started :
      (wf : String) (db : Db) → get wf db.executions ≡ none → P db → P (new_execution wf db)
  pub queried : (q : Query) (db : Db) → P db → P (record db { tasks = step db.tasks q })

abbrev pub AllPlain : Decision → Type 0
AllPlain done = Unit
AllPlain (append es) = All IsPlain es
AllPlain (raises e) = Unit

command_to_event-IsPlain :
    (now : ℕ) (llm : LlmStepConfig) (c : WorkflowCommand) → IsPlain (command_to_event now llm c)
command_to_event-IsPlain now llm (schedule_activity type input) = refl
command_to_event-IsPlain now llm (complete_workflow v) = refl
command_to_event-IsPlain now llm (fail_workflow e) = refl
command_to_event-IsPlain now llm (schedule_timer d) = refl
command_to_event-IsPlain now llm (request_llm_call i r h) = refl
command_to_event-IsPlain now llm (request_tool_call i t a h) = refl

commands-IsPlain :
    (now : ℕ) (llm : LlmStepConfig) (cs : List WorkflowCommand)
    → All IsPlain (map (command_to_event now llm) cs)
commands-IsPlain now llm [] = tt
commands-IsPlain now llm (c ∷ cs) =
    (command_to_event-IsPlain now llm c, commands-IsPlain now llm cs)

after_replay-AllPlain :
    (now : ℕ) (llm : LlmStepConfig) (o : ReplayOutcome) → AllPlain (after_replay now llm o)
after_replay-AllPlain now llm (threw (step_request_mismatch i n a b k)) = (refl, tt)
after_replay-AllPlain now llm (threw (activity_mismatch n a b)) = tt
after_replay-AllPlain now llm (replayed r) = split r.commands
  where
    split : (cs : List WorkflowCommand) → AllPlain (append_commands now llm cs)
    split [] = tt
    split (c ∷ cs) = commands-IsPlain now llm (c ∷ cs)

run_workflow-AllPlain :
    (hash : String → String) (now : ℕ) (llm : LlmStepConfig) (history : List StoredWorkflowEvent)
    (input : Value) (fn : Option WorkflowFn) (type : String)
    → AllPlain (run_workflow hash now llm history input fn type)
run_workflow-AllPlain hash now llm history input none type = tt
run_workflow-AllPlain hash now llm history input (some fn) type =
    elim (Option-cases (cancellation_request history)) [
      | inl e ↦ rw (e, AllPlain) (after_replay-AllPlain now llm _)
      | inr (reason, e) ↦
          rw (e, AllPlain)
            (elim (Bool-cases (is_terminal history)) [
              | inl t ↦ rw t (after_replay-AllPlain now llm _)
              | inr t ↦ rw t (refl, tt)
            ])
    ]

pub workflow_decision-AllPlain :
    (hash : String → String) (registry : Registry) (now : ℕ) (llm : LlmStepConfig) (task : Task)
    (history : List StoredWorkflowEvent)
    → AllPlain (workflow_decision hash registry now llm task history)
unfolding workflow_decision
workflow_decision-AllPlain hash registry now llm task history =
    elim (Option-cases (started_event history)) [
      | inl e ↦ rw (e, workflow_decision) tt
      | inr ((type, input), e) ↦
          rw (e, workflow_decision)
            (run_workflow-AllPlain hash now llm history input (registry type) type)
    ]

outcome_event-IsPlain : (seq : ℕ) (r : FnResult) → IsPlain (outcome_event seq r)
outcome_event-IsPlain seq (returned v) = refl
outcome_event-IsPlain seq (raised e) = refl

pub activity_decision-AllPlain :
    (registry : ActivityRegistry) (task : Task) (seq : ℕ) (history : List StoredWorkflowEvent)
    → AllPlain (activity_decision registry task seq history)
unfolding activity_decision
activity_decision-AllPlain registry task seq history =
    elim (Option-cases (scheduled_activity (event_at seq history))) [
      | inl e ↦ rw (e, AllPlain) tt
      | inr ((type, input), e) ↦
          rw (e, AllPlain)
            (elim (Bool-cases (has_outcome activity_outcome_types seq history)) [
              | inl h ↦ rw (h, AllPlain) tt
              | inr h ↦
                  rw (h, AllPlain)
                    (elim (Option-cases (registry type)) [
                      | inl r ↦ rw (r, AllPlain) tt
                      | inr (fn, r) ↦
                          rw (r, AllPlain)
                            (
                              outcome_event-IsPlain seq
                                  (fn input (task.workflow_id +s+ ":" +s+ decimal seq)),
                              tt,
                            )
                    ])
            ])
    ]
