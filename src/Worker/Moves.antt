-- ===== src/Worker/Moves.antt =====
-- Any sequence of handler runs, entry points and queue queries, each transaction one step.
-- What a handler has read may be the tables of any earlier time.
use karya_kram.Base.{ℕ, String, Option, List, [], ◌∷◌}
use karya_kram.Json.{Value}
use karya_kram.Queue.Task.{Task}
use karya_kram.Queue.Steps.{Query, step, empty}
use karya_kram.Store.Events.{Db}
use karya_kram.Worker.Handlers.{
  ActivityRegistry, activity_handler, timer_handler, send_signal, cancel_workflow, start_workflow,
}
use karya_kram.Worker.Replays.{Registry, LlmStepConfig, workflow_replay_handler}
use karya_kram.Worker.LlmHandler.{LlmWorker, llm_handler}
use karya_kram.Worker.ToolHandler.{ToolWorker, tool_handler}

pub data Move : Type 0 where
  runs_workflow :
      (String → String) → Registry → LlmStepConfig → ℕ → Option String → Task → Db → Move
  runs_activity : ActivityRegistry → ℕ → Option String → Task → Db → Move
  runs_llm : LlmWorker → ℕ → Option String → Task → Db → Move
  -- The latency, and the tables when the history is read and when the lease is looked up.
  runs_tool : ToolWorker → ℕ → Option String → Task → ℕ → Db → Db → Move
  fires_timer : ℕ → Option String → Task → Move
  signals : ℕ → Option String → String → String → Value → Move
  cancels : ℕ → Option String → String → Option String → Move
  starts : ℕ → Option String → String → String → Value → Move
  queries : Query → Move

unfoldable pub move : Db → Move → Db
unfolding workflow_replay_handler activity_handler llm_handler tool_handler timer_handler
    send_signal cancel_workflow start_workflow step
move db (runs_workflow hash registry llm now trace task read) =
    (workflow_replay_handler hash registry llm now trace task read db).0
move db (runs_activity registry now trace task read) =
    (activity_handler registry now trace task read db).0
move db (runs_llm w now trace task read) = (llm_handler w now trace task read db).0
move db (runs_tool w now trace task latency read early) =
    (tool_handler w now trace task latency read early db).0
move db (fires_timer now trace task) = (timer_handler now trace task db).0
move db (signals now trace wf name payload) = (send_signal now trace wf name payload db).0
move db (cancels now trace wf reason) = (cancel_workflow now trace wf reason db).0
move db (starts now trace wf type input) = (start_workflow now trace wf type input db).0
move db (queries q) = record db { tasks = step db.tasks q }

unfoldable pub moves : Db → List Move → Db
unfolding move
moves db [] = db
moves db (m ∷ ms) = moves (move db m) ms

abbrev pub empty_db : Db
empty_db = record { executions = []; events = []; tasks = empty; ledger = []; effects = [] }
