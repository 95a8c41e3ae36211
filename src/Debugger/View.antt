-- ===== src/Debugger/View.antt =====
-- packages/web/src/llmView.ts, lines 5 to 61: the steps of a workflow and which of them a replay used
-- again. `show_time` is the text of a date.
use Prim.Native.String.{◌++◌ as ◌+s+◌}
use karya_kram.Base.{
  ℕ, max, String, Bool, true, false, ◌&&◌, Option, none, some, List, [], ◌∷◌, ◌++◌, any, ltb,
  nat_beq, if◌then◌else◌,
}
use karya_kram.Workflow.Events.{
  WorkflowEventPayload, StoredWorkflowEvent, activity_scheduled, timer_scheduled, llm_requested,
  llm_completed, tool_requested, tool_completed, workflow_completed, workflow_failed,
}

pub data StepKind : Type 0 where
  activity timer llm tool : StepKind

pub record DagStep : Type 0 where
  pub seq : ℕ
  pub kind : StepKind
  pub label : String

abbrev step : ℕ → StepKind → String → Option DagStep
step seq kind label = some (record { seq = seq; kind = kind; label = label })

unfoldable pub to_dag_step : (ℕ → String) → ℕ → WorkflowEventPayload → Option DagStep
to_dag_step show_time seq (activity_scheduled type input) = step seq StepKind.activity type
to_dag_step show_time seq (timer_scheduled fire_at) =
    step seq StepKind.timer ("timer (fires " +s+ show_time fire_at +s+ ")")
to_dag_step show_time seq (llm_requested e) = step seq StepKind.llm ("LLM " +s+ e.step_id)
to_dag_step show_time seq (tool_requested e) =
    step seq StepKind.tool ("tool " +s+ e.tool +s+ " (" +s+ e.step_id +s+ ")")
to_dag_step show_time seq _ = none

-- The types of the events that running workflow code produces.
abbrev pub is_decision : WorkflowEventPayload → Bool
is_decision (activity_scheduled type input) = true
is_decision (timer_scheduled fire_at) = true
is_decision (llm_requested e) = true
is_decision (tool_requested e) = true
is_decision (workflow_completed result) = true
is_decision (workflow_failed error) = true
is_decision _ = false

abbrev pub is_completion : WorkflowEventPayload → Bool
is_completion (llm_completed e) = true
is_completion (tool_completed e) = true
is_completion _ = false

-- The `reduce` over the events, from the highest number so far.
unfoldable pub last_decision_seq : ℕ → List StoredWorkflowEvent → ℕ
last_decision_seq highest [] = highest
last_decision_seq highest (e ∷ es) =
    last_decision_seq (if is_decision e.event then max highest e.seq else highest) es

-- `out.add(seq)`
abbrev pub add_seq : ℕ → List ℕ → List ℕ
add_seq n seen = if any (λ m. nat_beq m n) seen then seen else seen ++ n ∷ []

unfoldable pub collect : ℕ → List StoredWorkflowEvent → List ℕ → List ℕ
collect last [] seen = seen
collect last (e ∷ es) seen =
    collect last es (if is_completion e.event && ltb e.seq last then add_seq e.seq seen else seen)

unfoldable pub replayed_step_seqs : List StoredWorkflowEvent → List ℕ
unfolding last_decision_seq collect
replayed_step_seqs events = collect (last_decision_seq 0 events) events []
