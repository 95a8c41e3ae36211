-- ===== src/Examples/Stages.antt =====
-- The order workflow, replayed from the start after each of its activities (reserveChargeShip.ts,
-- replay.ts), against its code run directly.
use karya_kram.Base.{
  ℕ, suc, ◌≡◌, refl, ap, ◌∙◌, String, Option, none, some, List, [], ◌∷◌, ◌++◌, length, number_eq,
}
use karya_kram.Base.Dict.{get, put}
use karya_kram.Base.Throws.{Throws, threw, returned}
use karya_kram.Json.{Value, undefined, null, bool, num, str, arr, obj, end, field}
use karya_kram.Workflow.Events.{
  StoredWorkflowEvent, WorkflowEventPayload, workflow_started, activity_scheduled,
  activity_completed, activity_failed,
}
use karya_kram.Replay.Program.{
  WorkflowCommand, schedule_activity, complete_workflow, fail_workflow, running, completed, failed,
  ReplayOutcome, replayed,
}
use karya_kram.Replay.Context.{invoke}
use karya_kram.Replay.Run.{replay}
use karya_kram.Examples.Workflows.{property, reserve_charge_ship}

abbrev pub order_started : Value → List StoredWorkflowEvent
order_started input = record { seq = 1; event = workflow_started "reserve-charge-ship" input } ∷ []

-- The activity that a replay asks for.
abbrev pub asked : ReplayOutcome → Option (String × Value)
asked (replayed r) = elim r.commands [
  | schedule_activity type input ∷ _ ↦ some (type, input)
  | _ ↦ none
]
asked _ = none

abbrev outcome_event : ℕ → Throws Value → WorkflowEventPayload
outcome_event seq (returned v) = activity_completed seq v
outcome_event seq (threw error) = activity_failed seq error

-- The history after an activity that was asked for has ended.
abbrev pub ended :
    String × Value → Throws Value → List StoredWorkflowEvent → List StoredWorkflowEvent
ended (type, input) outcome history =
    let seq = suc (length history) in
    history
    ++ record { seq = seq; event = activity_scheduled type input }
      ∷ record { seq = suc seq; event = outcome_event seq outcome }
      ∷ []

-- Each activity that a replay asks for ends as the next outcome says, and its events are in the
-- history of the next replay. The activities that were run are given, and the last replay.
unfoldable pub durable :
    Value → List (Throws Value) → List StoredWorkflowEvent → List (String × Value) × ReplayOutcome
unfolding replay invoke get put
durable input [] history = ([], replay reserve_charge_ship input history none)
durable input (o ∷ os) history = elim (asked (replay reserve_charge_ship input history none)) [
  | none ↦ ([], replay reserve_charge_ship input history none)
  | some activity ↦
      let rest = durable input os (ended activity o history) in (activity ∷ rest.0, rest.1)
]

abbrev pub waiting : WorkflowCommand → ReplayOutcome
waiting command = replayed (record {
  status = running;
  result = none;
  error = none;
  commands = command ∷ [];
  pending_llm_requests = none;
})

abbrev pub finished : Value → ReplayOutcome
finished result = replayed (record {
  status = completed;
  result = some result;
  error = none;
  commands = complete_workflow result ∷ [];
  pending_llm_requests = none;
})

abbrev pub fails : String → ReplayOutcome
fails error = replayed (record {
  status = failed;
  result = none;
  error = some error;
  commands = fail_workflow error ∷ [];
  pending_llm_requests = none;
})

-- One activity of code that is run directly: it awaits the next outcome, which may be missing or
-- an error.
abbrev pub then_run :
    String
    → Value
    → List (Throws Value)
    → (Value → List (Throws Value) → List (String × Value) × ReplayOutcome)
    → List (String × Value) × ReplayOutcome
then_run type input [] rest = ([], waiting (schedule_activity type input))
then_run type input (threw error ∷ os) rest = ((type, input) ∷ [], fails error)
then_run type input (returned v ∷ os) rest =
    let after = rest v os in ((type, input) ∷ after.0, after.1)

-- The return statement, with the error of `input.orderId`.
abbrev pub closing : Value → Value → ReplayOutcome
closing undefined shipped = fails "Cannot read properties of undefined (reading 'orderId')"
closing null shipped = fails "Cannot read properties of null (reading 'orderId')"
closing input shipped = finished (
    obj (
      field "orderId" (property "orderId" input)
        (field "status" (str "done") (field "shipped" shipped end))))

abbrev pub direct : Value → List (Throws Value) → List (String × Value) × ReplayOutcome
direct input outcomes = then_run "reserve" input outcomes (λ reserved os.
    then_run "charge" reserved os
      (λ charged os. then_run "ship" charged os (λ shipped os. ([], closing input shipped))))

-- Once a replay asks for no activity, the outcomes that are left change nothing.
settled :
    (input : Value) (outcomes : List (Throws Value)) (history : List StoredWorkflowEvent)
    → asked (replay reserve_charge_ship input history none) ≡ none
    → durable input outcomes history ≡ ([], replay reserve_charge_ship input history none)
unfolding durable
settled input [] history h = refl
settled input (o ∷ os) history h = rw (h, durable) refl

-- The history after three activities that have returned.
abbrev shipped_history : Value → Value → Value → Value → List StoredWorkflowEvent
shipped_history input reserved charged shipped =
    ended ("ship", charged) (returned shipped)
      (ended ("charge", reserved) (returned charged)
        (ended ("reserve", input) (returned reserved) (order_started input)))

closed :
    (input reserved charged shipped : Value)
    → replay reserve_charge_ship input (shipped_history input reserved charged shipped) none
      ≡ closing input shipped
unfolding replay invoke get put
closed undefined r c s = refl
closed null r c s = refl
closed (num n) r c s = refl
closed (str t) r c s = refl
closed (bool b) r c s = refl
closed (arr xs) r c s = refl
closed (obj fs) r c s = refl

closing-asked : (input shipped : Value) → asked (closing input shipped) ≡ none
closing-asked undefined s = refl
closing-asked null s = refl
closing-asked (num n) s = refl
closing-asked (str t) s = refl
closing-asked (bool b) s = refl
closing-asked (arr xs) s = refl
closing-asked (obj fs) s = refl

-- For all inputs and any outcomes of its activities in turn, which may end early or be errors, the
-- order workflow replayed from the start after each activity that it asks for runs the same
-- activities with the same inputs, and ends as the code run directly: it waits for the activity
-- whose outcome is missing, fails with the first error or, for an input that is null or undefined,
-- with the error of input.orderId after ship, or completes with the order's id, done and what ship
-- gave.
pub order_durable :
    (input : Value) (outcomes : List (Throws Value))
    → durable input outcomes (order_started input) ≡ direct input outcomes
unfolding durable
order_durable input [] = refl
order_durable input (threw e ∷ os) =
    ap (λ x. (("reserve", input) ∷ x.0, x.1))
      (settled input os (ended ("reserve", input) (threw e) (order_started input)) refl)
order_durable input (returned r ∷ []) = refl
order_durable input (returned r ∷ threw e ∷ os) =
    let history = ended ("reserve", input) (returned r) (order_started input) in
    ap (λ x. (("reserve", input) ∷ ("charge", r) ∷ x.0, x.1))
      (settled input os (ended ("charge", r) (threw e) history) refl)
order_durable input (returned r ∷ returned c ∷ []) = refl
order_durable input (returned r ∷ returned c ∷ threw e ∷ os) =
    let history =
      ended ("charge", r) (returned c)
        (ended ("reserve", input) (returned r) (order_started input)) in
    ap (λ x. (("reserve", input) ∷ ("charge", r) ∷ ("ship", c) ∷ x.0, x.1))
      (settled input os (ended ("ship", c) (threw e) history) refl)
order_durable input (returned r ∷ returned c ∷ returned s ∷ os) =
    let done = closed input r c s in
    ap (λ x. (("reserve", input) ∷ ("charge", r) ∷ ("ship", c) ∷ x.0, x.1))
      (settled input os (shipped_history input r c s) (ap asked done ∙ closing-asked input s)
        ∙ ap (λ o. ([], o)) done)
