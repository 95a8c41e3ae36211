-- ===== src/Scenarios/Replays.antt =====
-- An order that reserves and then waits for a signal, replayed.
use karya_kram.Base.{◌≡◌, refl, ◌++◌, none, some, List, [], ◌∷◌, arith, number_eq}
use karya_kram.Base.Dict.{get, put}
use karya_kram.Json.{Value, str}
use karya_kram.Workflow.Events.{
  StoredWorkflowEvent, workflow_started, activity_scheduled, activity_completed, signal_received,
}
use karya_kram.Workflow.State.{ActivityState, ActivityStatus, apply_event, fold_events}
use karya_kram.Replay.Program.{
  Call, Called, promise, thrown, Awaited, fulfilled, value, Program, returns, throws, call, await,
  complete_workflow, ReplayResult, running, completed, replayed,
}
use karya_kram.Replay.Log.{activity_outcome, outcome_by_seq, read_history}
use karya_kram.Replay.Context.{first_pass, invoke}
use karya_kram.Replay.Run.{max_drain_ticks, run, replay}
use karya_kram.Replay.NoReissue.{NoReissue, pass-NoReissue}
use karya_kram.Replay.Persist.{Continues, SameEnd, replay-append}
use karya_kram.Replay.Agreement.{settled_activity, fold-agrees-replay}

abbrev after_reserved : Awaited → Program
after_reserved (fulfilled (value v)) = returns v
after_reserved _ = throws "not reserved"

abbrev after_reserve : Called → Program
after_reserve (promise i) = await i after_reserved
after_reserve (thrown e) = throws e

abbrev order : Value → Program
order input = call (Call.schedule_activity "reserve" input) after_reserve

abbrev reserving : List StoredWorkflowEvent
reserving =
    record { seq = 1; event = workflow_started "order" (str "x") }
    ∷ record { seq = 2; event = activity_scheduled "reserve" (str "x") }
    ∷ []

abbrev reserved : List StoredWorkflowEvent
reserved = reserving ++ record { seq = 3; event = activity_completed 2 (str "r1") } ∷ []

abbrev later : List StoredWorkflowEvent
later = record { seq = 4; event = signal_received "note" (str "hi") } ∷ []

abbrev ended : ReplayResult
ended = record {
  status = completed;
  result = some (str "r1");
  error = none;
  commands = complete_workflow (str "r1") ∷ [];
  pending_llm_requests = none;
}

reserved_completes : replay order (str "x") reserved none ≡ replayed ended
unfolding replay invoke get put
reserved_completes = refl

reserving_waits :
    replay order (str "x") reserving none
    ≡ replayed (record ended { status = running; result = none; commands = [] })
unfolding replay invoke get put
reserving_waits = refl

reserved-Continues : Continues reserved later
unfolding outcome_by_seq
reserved-Continues = record { activities = (tt, tt); llm_calls = (tt, tt); tool_calls = (tt, tt) }

replay-append_example : SameEnd ended (replay order (str "x") (reserved ++ later) none)
replay-append_example =
    replay-append order (str "x") none reserved later ended reserved-Continues (λ e. cc)
      reserved_completes

pass-NoReissue_example :
    NoReissue
      (read_history reserving)
      (run none (read_history reserving) (order (str "x")) max_drain_ticks [] first_pass).0
pass-NoReissue_example = pass-NoReissue none (read_history reserving) (order (str "x"))

abbrev reserve_state : ActivityState
reserve_state = record {
  activity_type = "reserve";
  status = ActivityStatus.completed;
  result = some (str "r1");
  error = none;
}

reserve_folds : get 2 (fold_events reserved).activities ≡ some reserve_state
unfolding fold_events apply_event get put
reserve_folds = refl

fold-agrees-replay_example :
    settled_activity reserve_state ≡ get 2 (outcome_by_seq activity_outcome reserved)
fold-agrees-replay_example =
    fold-agrees-replay reserved 2 reserve_state
      (omega arith, tt, (omega arith, tt, (omega arith, omega arith, tt))) reserve_folds
