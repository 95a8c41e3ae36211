-- ===== src/Scenarios/Tools.antt =====
-- A workflow that charges once through a tool, which two deliveries of its task try to run.
use karya_kram.Base.{
  decimal, ℕ, ◌≤◌, ◌≡◌, refl, String, none, some, List, [], ◌∷◌, ◌++◌, Bool, false,
}
use karya_kram.Base.Dict.{get, put}
use karya_kram.Json.{null, str}
use karya_kram.Llm.{canonical_tool_call}
use karya_kram.Workflow.Events.{LlmRequestStorage}
use karya_kram.Queue.Task.{TaskType, Task}
use karya_kram.Queue.Ops.{DequeueInput, lease, new_task}
use karya_kram.Queue.Steps.{dequeues}
use karya_kram.Replay.Program.{
  Call, Called, promise, thrown, Awaited, Program, returns, throws, call, await, WorkflowFn,
}
use karya_kram.Replay.Context.{invoke, tool_call}
use karya_kram.Replay.Run.{replay}
use karya_kram.Store.Events.{step_task}
use karya_kram.Worker.Replays.{LlmStepConfig, Registry}
use karya_kram.Worker.ToolHandler.{ToolWorker, ran, hash_tool_call}
use karya_kram.Worker.Moves.{Move, starts, runs_workflow, runs_tool, queries, moves, empty_db}
use karya_kram.Worker.RunsOnce.{claims, runs, tool_runs_once}

abbrev charged : Awaited → Program
charged a = returns null

abbrev charging : Called → Program
charging (promise i) = await i charged
charging (thrown e) = throws e

abbrev shop : WorkflowFn
shop input = call (Call.tool_call "charge" null) charging

abbrev pub same_text : String → String
same_text s = s

abbrev pub registry : Registry
registry type = some shop

abbrev config : LlmStepConfig
config = record {
  max_attempts = 5;
  tool_max_attempts = 3;
  build_stored_request =
      λ r. record { request_storage = LlmRequestStorage.none_stored; request = none };
}

abbrev shop_worker : ToolWorker
shop_worker = record {
  validate = λ name args. none;
  tool = λ name. some (λ args key. ran null (("charge", str "10") ∷ []));
  hash = same_text;
}

abbrev leases : TaskType → DequeueInput
leases type = record {
  worker_id = "a";
  queue = none;
  task_type = some type;
  limit = 1;
  lease_seconds = 30;
}

abbrev free : ℕ → Bool
free i = false

abbrev workflow_row : Task
workflow_row = new_task (step_task TaskType.workflow "wf" 1 none) 0 5

abbrev tool_row : Task
tool_row =
    lease (leases TaskType.tool) 15
      (new_task (record (step_task TaskType.tool "wf" 2 none) { max_attempts = some 3 }) 1 10)

abbrev begun : List Move
begun = starts 5 none "wf" "shop" null ∷ queries (dequeues (leases TaskType.workflow) 6 free) ∷ []

abbrev requested : List Move
requested =
    begun
    ++ runs_workflow same_text registry config 10 none workflow_row (moves empty_db begun)
      ∷ queries (dequeues (leases TaskType.tool) 15 free)
      ∷ []

-- Two runs of the task that both read the history before either wrote.
abbrev charged_twice : List Move
charged_twice =
    requested
    ++ runs_tool shop_worker 20 none tool_row 3 (moves empty_db requested)
        (moves empty_db requested)
      ∷ runs_tool shop_worker 21 none tool_row 3 (moves empty_db requested)
          (moves empty_db requested)
      ∷ []

one_run : runs "wf" "tool-0" (moves empty_db charged_twice) ≡ 1
unfolding runs moves replay invoke tool_call canonical_tool_call get put hash_tool_call decimal
one_run = refl

tool_runs_once_example :
    (runs "wf" "tool-0" (moves empty_db charged_twice)
      ≡ claims "wf" "tool-0" (moves empty_db charged_twice))
    × (runs "wf" "tool-0" (moves empty_db charged_twice) ≤ 1)
tool_runs_once_example = tool_runs_once charged_twice "wf" "tool-0"
