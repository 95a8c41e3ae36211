-- ===== src/Scenarios/Views.antt =====
-- The debugger's view of a workflow that asked a model once.
use karya_kram.Base.{
  decimal, ℕ, ◌≡◌, refl, false, not, ◌&&◌, ◌||◌, some, List, [], ◌∷◌, any, nat_beq,
}
use karya_kram.Json.{null}
use karya_kram.Workflow.Events.{
  StoredWorkflowEvent, workflow_started, activity_scheduled, workflow_completed, llm_completed,
}
use karya_kram.Debugger.Stream.{has_seq, receive_all}
use karya_kram.Debugger.Merged.{Increasing, receive_all-Increasing}
use karya_kram.Debugger.View.{StepKind, DagStep, is_completion, replayed_step_seqs}
use karya_kram.Base.Dict.{get, put}
use karya_kram.Workflow.State.{apply_event, fold_events}
use karya_kram.Debugger.Dag.{dag_node, dag_nodes, dag_edges}
use karya_kram.Debugger.Reached.{starts, is_gray, node-gray}
use karya_kram.Debugger.Replayed.{member, decided_after, replayed-decided}

abbrev started : StoredWorkflowEvent
started = record { seq = 1; event = workflow_started "ask" null }

abbrev answered : StoredWorkflowEvent
answered = record {
  seq = 3;
  event = llm_completed (record {
    step_id = "llm-0";
    scheduled_event_seq = 2;
    request_hash = "h";
    text = "yes";
    tool_calls = [];
    truncated = false;
    model = "mock-1";
    tokens_in = 1;
    tokens_out = 1;
    latency_ms = 0;
    estimated_cost_usd = some 3;
    attempt = 1;
  });
}

abbrev completed : StoredWorkflowEvent
completed = record { seq = 4; event = workflow_completed null }

-- Two overlapping polls sent the same events.
abbrev sent : List StoredWorkflowEvent
sent = answered ∷ completed ∷ answered ∷ completed ∷ []

held_once : receive_all sent (started ∷ []) ≡ started ∷ answered ∷ completed ∷ []
unfolding receive_all
held_once = refl

receive_all-Increasing_example :
    Increasing (receive_all sent (started ∷ []))
    × ((n : ℕ)
        → has_seq n (receive_all sent (started ∷ []))
          ≡ (has_seq n sent || has_seq n (started ∷ [])))
receive_all-Increasing_example = receive_all-Increasing sent (started ∷ []) (tt, tt)

replayed_answer : replayed_step_seqs (started ∷ answered ∷ completed ∷ []) ≡ 3 ∷ []
unfolding replayed_step_seqs
replayed_answer = refl

replayed-decided_example : member 3 (replayed_step_seqs (started ∷ answered ∷ completed ∷ [])) ≡ (
    any (λ e. is_completion e.event && nat_beq e.seq 3) (started ∷ answered ∷ completed ∷ [])
    && decided_after 3 (started ∷ answered ∷ completed ∷ []))
replayed-decided_example = replayed-decided 3 (started ∷ answered ∷ completed ∷ [])

abbrev reserving : StoredWorkflowEvent
reserving = record { seq = 2; event = activity_scheduled "reserve" null }

abbrev reserve_step : DagStep
reserve_step = record { seq = 2; kind = StepKind.activity; label = "reserve" }

abbrev charge_step : DagStep
charge_step = record { seq = 4; kind = StepKind.activity; label = "charge" }

-- The position is at the second event, and the graph has the later step as well.
drawn :
    dag_nodes (fold_events (started ∷ reserving ∷ [])) 0 (reserve_step ∷ charge_step ∷ [])
    ≡ record { id = "2"; y = 0; label = "reserve (SCHEDULED)"; background = "#fef08a" }
      ∷ record { id = "4"; y = 90; label = "charge (not yet reached)"; background = "#e5e7eb" }
      ∷ []
unfolding dag_nodes fold_events apply_event get put decimal
drawn = refl

joined :
    dag_edges (reserve_step ∷ charge_step ∷ [])
    ≡ record { id = "e2-4"; source = "2"; target = "4" } ∷ []
unfolding dag_edges decimal
joined = refl

node-gray_example :
    is_gray (dag_node (fold_events (started ∷ reserving ∷ [])) reserve_step 0).background
    ≡ not (
        any
          (λ e. starts reserve_step.kind e.event && nat_beq e.seq reserve_step.seq)
          (started ∷ reserving ∷ []))
node-gray_example = node-gray reserve_step 0 (started ∷ reserving ∷ [])
