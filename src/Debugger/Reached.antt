-- ===== src/Debugger/Reached.antt =====
-- Which nodes of the graph are shown as reached (DagView.tsx, workflow.ts).
use mathlib.Core.Option
use mathlib.Core.List.{foldl}
use karya_kram.Base.{
  ℕ, ◌≡◌, refl, Bool, true, false, not, ◌&&◌, ◌||◌, String, Option, none, some, List, [], ◌∷◌,
  arith, any, nat_beq, number_eq, text_eq, ◌==◌, if◌then◌else◌, ◌∙◌, Bool-cases, inl, inr, subst,
}
use karya_kram.Base.Dict.{Dict, get, put, get-put}
use karya_kram.Workflow.Events.{
  WorkflowEventPayload, StoredWorkflowEvent, workflow_started, activity_scheduled,
  activity_completed, activity_failed, workflow_completed, workflow_failed, timer_scheduled,
  timer_fired, signal_received, cancellation_requested, workflow_canceled, llm_requested,
  llm_completed, llm_failed, tool_requested, tool_completed, tool_failed,
}
use karya_kram.Workflow.State.{
  TimerStatus, ActivityStatus, StepStatus, WorkflowState, initial_state, amend, apply_event,
  fold_events,
}
use karya_kram.Debugger.View.{StepKind, DagStep}
use karya_kram.Debugger.Dag.{
  activity_text, timer_text, step_text, status_color, step_status, dag_node,
}

-- The event that a step of this kind is drawn for.
abbrev pub starts : StepKind → WorkflowEventPayload → Bool
starts StepKind.activity (activity_scheduled type input) = true
starts StepKind.timer (timer_scheduled fire_at) = true
starts StepKind.llm (llm_requested e) = true
starts StepKind.tool (tool_requested e) = true
starts _ _ = false

abbrev present : {V : Type 0} → Option V → Bool
present none = false
present (some v) = true

abbrev known : StepKind → ℕ → WorkflowState → Bool
known StepKind.activity n s = present (get n s.activities)
known StepKind.timer n s = present (get n s.timers)
known StepKind.llm n s = present (get n s.llm_calls)
known StepKind.tool n s = present (get n s.tool_calls)

put-present :
    {V : Type 0} (k n : ℕ) (v : V) (m : Dict ℕ V)
    → present (get n (put k v m)) ≡ (nat_beq k n || present (get n m))
put-present k n v m = rw (get-put k n v m) (split (nat_beq k n))
  where
    split : (b : Bool) → present (if b then some v else get n m) ≡ (b || present (get n m))
    split true = refl
    split false = refl

amend-present :
    {V : Type 0} (k n : ℕ) (f : V → V) (m : Dict ℕ V)
    → present (get n (amend k f m)) ≡ present (get n m)
amend-present {V} k n f m = go (get k m) refl
  where
    go :
        (o : Option V)
        → get k m ≡ o
        → present (get n (elim o [ none ↦ m | some a ↦ put k (f a) m ])) ≡ present (get n m)
    go none e = refl
    go (some a) e = put-present k n (f a) m ∙ elim (Bool-cases (nat_beq k n)) [
      | inl b ↦
          let same : k ≡ n = ground arith in
          rw b (subst (λ j. true ≡ present (get j m)) same (rw e refl))
      | inr b ↦ rw b refl
    ]

activity-known :
    (n seq : ℕ) (p : WorkflowEventPayload) (s : WorkflowState)
    → known StepKind.activity n (apply_event s (record { seq = seq; event = p }))
      ≡ (starts StepKind.activity p && nat_beq seq n || known StepKind.activity n s)
unfolding apply_event
activity-known n seq (workflow_started type input) s = refl
activity-known n seq (activity_scheduled type input) s = put-present seq n _ s.activities
activity-known n seq (activity_completed k result) s = amend-present k n _ s.activities
activity-known n seq (activity_failed k error) s = amend-present k n _ s.activities
activity-known n seq (workflow_completed result) s = refl
activity-known n seq (workflow_failed error) s = refl
activity-known n seq (timer_scheduled at) s = refl
activity-known n seq (timer_fired k) s = refl
activity-known n seq (signal_received name v) s = refl
activity-known n seq (cancellation_requested reason) s = refl
activity-known n seq (workflow_canceled reason) s = refl
activity-known n seq (llm_requested e) s = refl
activity-known n seq (llm_completed e) s = refl
activity-known n seq (llm_failed e) s = refl
activity-known n seq (tool_requested e) s = refl
activity-known n seq (tool_completed e) s = refl
activity-known n seq (tool_failed e) s = refl

timer-known :
    (n seq : ℕ) (p : WorkflowEventPayload) (s : WorkflowState)
    → known StepKind.timer n (apply_event s (record { seq = seq; event = p }))
      ≡ (starts StepKind.timer p && nat_beq seq n || known StepKind.timer n s)
unfolding apply_event
timer-known n seq (workflow_started type input) s = refl
timer-known n seq (activity_scheduled type input) s = refl
timer-known n seq (activity_completed k result) s = refl
timer-known n seq (activity_failed k error) s = refl
timer-known n seq (workflow_completed result) s = refl
timer-known n seq (workflow_failed error) s = refl
timer-known n seq (timer_scheduled at) s = put-present seq n _ s.timers
timer-known n seq (timer_fired k) s = amend-present k n _ s.timers
timer-known n seq (signal_received name v) s = refl
timer-known n seq (cancellation_requested reason) s = refl
timer-known n seq (workflow_canceled reason) s = refl
timer-known n seq (llm_requested e) s = refl
timer-known n seq (llm_completed e) s = refl
timer-known n seq (llm_failed e) s = refl
timer-known n seq (tool_requested e) s = refl
timer-known n seq (tool_completed e) s = refl
timer-known n seq (tool_failed e) s = refl

llm-known :
    (n seq : ℕ) (p : WorkflowEventPayload) (s : WorkflowState)
    → known StepKind.llm n (apply_event s (record { seq = seq; event = p }))
      ≡ (starts StepKind.llm p && nat_beq seq n || known StepKind.llm n s)
unfolding apply_event
llm-known n seq (workflow_started type input) s = refl
llm-known n seq (activity_scheduled type input) s = refl
llm-known n seq (activity_completed k result) s = refl
llm-known n seq (activity_failed k error) s = refl
llm-known n seq (workflow_completed result) s = refl
llm-known n seq (workflow_failed error) s = refl
llm-known n seq (timer_scheduled at) s = refl
llm-known n seq (timer_fired k) s = refl
llm-known n seq (signal_received name v) s = refl
llm-known n seq (cancellation_requested reason) s = refl
llm-known n seq (workflow_canceled reason) s = refl
llm-known n seq (llm_requested e) s = put-present seq n _ s.llm_calls
llm-known n seq (llm_completed e) s = amend-present e.scheduled_event_seq n _ s.llm_calls
llm-known n seq (llm_failed e) s = amend-present e.scheduled_event_seq n _ s.llm_calls
llm-known n seq (tool_requested e) s = refl
llm-known n seq (tool_completed e) s = refl
llm-known n seq (tool_failed e) s = refl

tool-known :
    (n seq : ℕ) (p : WorkflowEventPayload) (s : WorkflowState)
    → known StepKind.tool n (apply_event s (record { seq = seq; event = p }))
      ≡ (starts StepKind.tool p && nat_beq seq n || known StepKind.tool n s)
unfolding apply_event
tool-known n seq (workflow_started type input) s = refl
tool-known n seq (activity_scheduled type input) s = refl
tool-known n seq (activity_completed k result) s = refl
tool-known n seq (activity_failed k error) s = refl
tool-known n seq (workflow_completed result) s = refl
tool-known n seq (workflow_failed error) s = refl
tool-known n seq (timer_scheduled at) s = refl
tool-known n seq (timer_fired k) s = refl
tool-known n seq (signal_received name v) s = refl
tool-known n seq (cancellation_requested reason) s = refl
tool-known n seq (workflow_canceled reason) s = refl
tool-known n seq (llm_requested e) s = refl
tool-known n seq (llm_completed e) s = refl
tool-known n seq (llm_failed e) s = refl
tool-known n seq (tool_requested e) s = put-present seq n _ s.tool_calls
tool-known n seq (tool_completed e) s = amend-present e.scheduled_event_seq n _ s.tool_calls
tool-known n seq (tool_failed e) s = amend-present e.scheduled_event_seq n _ s.tool_calls

apply-known :
    (kind : StepKind) (n : ℕ) (e : StoredWorkflowEvent) (s : WorkflowState)
    → known kind n (apply_event s e) ≡ (starts kind e.event && nat_beq e.seq n || known kind n s)
apply-known StepKind.activity n e s = activity-known n e.seq e.event s
apply-known StepKind.timer n e s = timer-known n e.seq e.event s
apply-known StepKind.llm n e s = llm-known n e.seq e.event s
apply-known StepKind.tool n e s = tool-known n e.seq e.event s

fold-known :
    (kind : StepKind) (n : ℕ) (events : List StoredWorkflowEvent) (s : WorkflowState)
    → known kind n (foldl apply_event s events)
      ≡ (any (λ e. starts kind e.event && nat_beq e.seq n) events || known kind n s)
fold-known kind n [] s = refl
fold-known kind n (e ∷ es) s =
    fold-known kind n es (apply_event s e) ∙ ground (arith, apply-known kind n e s)

initial-unknown : (kind : StepKind) (n : ℕ) → known kind n initial_state ≡ false
unfolding get
initial-unknown StepKind.activity n = refl
initial-unknown StepKind.timer n = refl
initial-unknown StepKind.llm n = refl
initial-unknown StepKind.tool n = refl

-- The color of a step that has not been reached.
abbrev pub is_gray : String → Bool
is_gray color = color == "#e5e7eb"

activity-gray : (a : ActivityStatus) → is_gray (status_color (some (activity_text a))) ≡ false
activity-gray ActivityStatus.scheduled = refl
activity-gray ActivityStatus.completed = refl
activity-gray ActivityStatus.failed = refl

timer-gray : (t : TimerStatus) → is_gray (status_color (some (timer_text t))) ≡ false
timer-gray TimerStatus.scheduled = refl
timer-gray TimerStatus.fired = refl

step-gray : (c : StepStatus) → is_gray (status_color (some (step_text c))) ≡ false
step-gray StepStatus.requested = refl
step-gray StepStatus.completed = refl
step-gray StepStatus.failed = refl

entry-gray :
    {V : Type 0} (text : V → String)
    → ((v : V) → is_gray (status_color (some (text v))) ≡ false)
    → (o : Option V) → is_gray (status_color (Option.map text o)) ≡ not (present o)
entry-gray text colored none = refl
entry-gray text colored (some v) = colored v

status-gray :
    (kind : StepKind) (n : ℕ) (s : WorkflowState)
    → is_gray (status_color (step_status s kind n)) ≡ not (known kind n s)
status-gray StepKind.activity n s =
    entry-gray (λ a. activity_text a.status) (λ a. activity-gray a.status) (get n s.activities)
status-gray StepKind.timer n s =
    entry-gray (λ t. timer_text t.status) (λ t. timer-gray t.status) (get n s.timers)
status-gray StepKind.llm n s =
    entry-gray (λ c. step_text c.status) (λ c. step-gray c.status) (get n s.llm_calls)
status-gray StepKind.tool n s =
    entry-gray (λ c. step_text c.status) (λ c. step-gray c.status) (get n s.tool_calls)

-- At every position of the scrubber, a step's node in the graph has the color of steps not reached
-- exactly where no event up to that position has the step's number and schedules or requests a
-- step of its kind.
pub node-gray :
    (step : DagStep) (i : ℕ) (seen : List StoredWorkflowEvent)
    → is_gray (dag_node (fold_events seen) step i).background
      ≡ not (any (λ e. starts step.kind e.event && nat_beq e.seq step.seq) seen)
unfolding fold_events
node-gray step i seen =
    status-gray step.kind step.seq (fold_events seen)
    ∙ ground (
      arith,
      fold-known step.kind step.seq seen initial_state,
      initial-unknown step.kind step.seq,
    )
