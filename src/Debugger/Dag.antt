-- ===== src/Debugger/Dag.antt =====
-- packages/web/src/DagView.tsx: one node for each step, with the status that the folded state gives
-- it, and one edge between neighbours. The rest of a node's style is constant.
use Prim.Native.String.{◌++◌ as ◌+s+◌}
use mathlib.Core.Option
use karya_kram.Base.{
  ℕ, ◌+◌, ◌*◌, String, Option, none, some, List, [], ◌∷◌, number_eq, decimal, text_eq, ◌==◌, ◌||◌,
  if◌then◌else◌,
}
use karya_kram.Base.Dict.{get}
use karya_kram.Llm.{get_or}
use karya_kram.Workflow.State.{ActivityStatus, TimerStatus, StepStatus, WorkflowState}
use karya_kram.Debugger.View.{StepKind, DagStep}

abbrev pub activity_text : ActivityStatus → String
activity_text ActivityStatus.scheduled = "SCHEDULED"
activity_text ActivityStatus.completed = "COMPLETED"
activity_text ActivityStatus.failed = "FAILED"

abbrev pub timer_text : TimerStatus → String
timer_text TimerStatus.scheduled = "SCHEDULED"
timer_text TimerStatus.fired = "FIRED"

abbrev pub step_text : StepStatus → String
step_text StepStatus.requested = "REQUESTED"
step_text StepStatus.completed = "COMPLETED"
step_text StepStatus.failed = "FAILED"

abbrev pub status_color : Option String → String
status_color none = "#e5e7eb"
status_color (some status) =
    if status == "COMPLETED" || status == "FIRED"
    then "#bbf7d0"
    else if status == "FAILED"
    then "#fecaca"
    else if status == "SCHEDULED" || status == "REQUESTED"
    then "#fef08a"
    else "#e5e7eb"

-- `state.activities[step.seq]?.status`, and so on.
abbrev pub step_status : WorkflowState → StepKind → ℕ → Option String
step_status state StepKind.activity seq =
    Option.map (λ a. activity_text a.status) (get seq state.activities)
step_status state StepKind.timer seq = Option.map (λ t. timer_text t.status) (get seq state.timers)
step_status state StepKind.llm seq = Option.map (λ c. step_text c.status) (get seq state.llm_calls)
step_status state StepKind.tool seq =
    Option.map (λ c. step_text c.status) (get seq state.tool_calls)

pub record Node : Type 0 where
  pub id : String
  pub y : ℕ
  pub label : String
  pub background : String

abbrev pub dag_node : WorkflowState → DagStep → ℕ → Node
dag_node state step i =
    let status = step_status state step.kind step.seq in
    record {
      id = decimal step.seq;
      y = i * 90;
      label = step.label +s+ " (" +s+ get_or "not yet reached" status +s+ ")";
      background = status_color status;
    }

-- `steps.map`, from the index `i` on.
unfoldable pub dag_nodes : WorkflowState → ℕ → List DagStep → List Node
dag_nodes state i [] = []
dag_nodes state i (step ∷ steps) = dag_node state step i ∷ dag_nodes state (i + 1) steps

pub record Edge : Type 0 where
  pub id : String
  pub source : String
  pub target : String

abbrev edge : ℕ → ℕ → Edge
edge from to = record {
  id = "e" +s+ decimal from +s+ "-" +s+ decimal to;
  source = decimal from;
  target = decimal to;
}

-- `steps.slice(1).map`, each step with the one before it.
unfoldable pub dag_edges : List DagStep → List Edge
dag_edges [] = []
dag_edges (a ∷ []) = []
dag_edges (a ∷ b ∷ steps) = edge a.seq b.seq ∷ dag_edges (b ∷ steps)
