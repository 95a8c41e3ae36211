-- ===== src/Replay/Log.antt =====
-- packages/core/src/replay.ts, lines 160 to 247: what replay reads off the history before it runs.
use mathlib.Core.List.{foldl, filter_map}
use karya_kram.Base.{ℕ, String, Option, none, some, List, [], ◌∷◌, ◌++◌, number_eq, text_eq}
use karya_kram.Base.Dict.{Dict, get, put}
use karya_kram.Json.{Value}
use karya_kram.Llm.{get_or}
use karya_kram.Workflow.Events.{
  LlmRequestedEvent, LlmCompletedEvent, LlmFailedEvent, ToolRequestedEvent, ToolCompletedEvent,
  ToolFailedEvent, activity_scheduled, activity_completed, activity_failed, timer_scheduled,
  timer_fired, signal_received, llm_requested, llm_completed, llm_failed, tool_requested,
  tool_completed, tool_failed, WorkflowEventPayload, StoredWorkflowEvent,
}

pub data ActivityOutcome : Type 0 where
  completed : Value → ActivityOutcome
  failed : String → ActivityOutcome

pub data LlmOutcome : Type 0 where
  completed : LlmCompletedEvent → LlmOutcome
  failed : LlmFailedEvent → LlmOutcome

pub data ToolOutcome : Type 0 where
  completed : ToolCompletedEvent → ToolOutcome
  failed : ToolFailedEvent → ToolOutcome

-- The filters `isActivityScheduled` and so on, each with what is read of the events that it keeps.
abbrev pub activity_entry : StoredWorkflowEvent → Option (ℕ × String)
activity_entry e = elim e.event [ activity_scheduled type _ ↦ some (e.seq, type) | _ ↦ none ]

abbrev pub timer_entry : StoredWorkflowEvent → Option ℕ
timer_entry e = elim e.event [ timer_scheduled _ ↦ some e.seq | _ ↦ none ]

abbrev pub llm_entry : StoredWorkflowEvent → Option (ℕ × LlmRequestedEvent)
llm_entry e = elim e.event [ llm_requested r ↦ some (e.seq, r) | _ ↦ none ]

abbrev pub tool_entry : StoredWorkflowEvent → Option (ℕ × ToolRequestedEvent)
tool_entry e = elim e.event [ tool_requested r ↦ some (e.seq, r) | _ ↦ none ]

abbrev pub activity_outcome : WorkflowEventPayload → Option (ℕ × ActivityOutcome)
activity_outcome (activity_completed seq result) = some (seq, ActivityOutcome.completed result)
activity_outcome (activity_failed seq error) = some (seq, ActivityOutcome.failed error)
activity_outcome _ = none

abbrev pub llm_outcome : WorkflowEventPayload → Option (ℕ × LlmOutcome)
llm_outcome (llm_completed e) = some (e.scheduled_event_seq, LlmOutcome.completed e)
llm_outcome (llm_failed e) = some (e.scheduled_event_seq, LlmOutcome.failed e)
llm_outcome _ = none

abbrev pub tool_outcome : WorkflowEventPayload → Option (ℕ × ToolOutcome)
tool_outcome (tool_completed e) = some (e.scheduled_event_seq, ToolOutcome.completed e)
tool_outcome (tool_failed e) = some (e.scheduled_event_seq, ToolOutcome.failed e)
tool_outcome _ = none

abbrev pub timer_outcome : WorkflowEventPayload → Option (ℕ × Unit {0})
timer_outcome (timer_fired seq) = some (seq, tt)
timer_outcome _ = none

abbrev pub put_outcome : {V : Type 0} → Dict ℕ V → Option (ℕ × V) → Dict ℕ V
put_outcome m none = m
put_outcome m (some (seq, v)) = put seq v m

-- `map.set` for the events that carry an outcome: a later one for the same seq takes its place.
abbrev pub set_outcome :
    {V : Type 0}
    → (WorkflowEventPayload → Option (ℕ × V))
    → Dict ℕ V
    → StoredWorkflowEvent
    → Dict ℕ V
set_outcome read m e = put_outcome m (read e.event)

unfoldable pub outcome_by_seq :
    {V : Type 0} → (WorkflowEventPayload → Option (ℕ × V)) → List StoredWorkflowEvent → Dict ℕ V
outcome_by_seq read = foldl (set_outcome read) []

abbrev pub add_signal : Dict String (List Value) → StoredWorkflowEvent → Dict String (List Value)
add_signal m e = elim e.event [
  | signal_received name payload ↦ put name (get_or [] (get name m) ++ payload ∷ []) m
  | _ ↦ m
]

unfoldable pub signals_by_name : List StoredWorkflowEvent → Dict String (List Value)
signals_by_name = foldl add_signal []

pub record Log : Type 0 where
  pub scheduled_events : List (ℕ × String)
  pub llm_requested_events : List (ℕ × LlmRequestedEvent)
  pub tool_requested_events : List (ℕ × ToolRequestedEvent)
  pub timer_events : List ℕ
  pub signal_events : Dict String (List Value)
  pub outcome : Dict ℕ ActivityOutcome
  pub llm_outcomes : Dict ℕ LlmOutcome
  pub tool_outcomes : Dict ℕ ToolOutcome
  pub fired_timers : Dict ℕ (Unit {0})

unfoldable pub read_history : List StoredWorkflowEvent → Log
unfolding outcome_by_seq signals_by_name filter_map
read_history history = record {
  scheduled_events = filter_map activity_entry history;
  llm_requested_events = filter_map llm_entry history;
  tool_requested_events = filter_map tool_entry history;
  timer_events = filter_map timer_entry history;
  signal_events = signals_by_name history;
  outcome = outcome_by_seq activity_outcome history;
  llm_outcomes = outcome_by_seq llm_outcome history;
  tool_outcomes = outcome_by_seq tool_outcome history;
  fired_timers = outcome_by_seq timer_outcome history;
}
