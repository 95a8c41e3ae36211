-- ===== src/Worker/Ledger.antt =====
-- packages/db/src/toolStore.ts: the ledger of tool steps, and the rows that tools write.
use karya_kram.Base.{
  String, Bool, ◌&&◌, Option, none, some, List, [], ◌∷◌, ◌++◌, map, ◌==◌, text_eq, any, find,
  if◌then◌else◌,
}
use karya_kram.Json.{Value, null, null_if_undefined}
use karya_kram.Llm.{get_or}
use karya_kram.Workflow.Events.{ToolRequestedEvent}
use karya_kram.Store.Column.{written_value}
use karya_kram.Store.Events.{LedgerRow, Db}

abbrev pub is_claim_of : String → String → LedgerRow → Bool
is_claim_of wf step r = r.workflow_id == wf && r.step_id == step

pub data ClaimResult : Type 0 where
  claimed : ClaimResult
  already : Value → ClaimResult

abbrev pub claim_row : String → ToolRequestedEvent → LedgerRow
claim_row wf e = record {
  workflow_id = wf;
  step_id = e.step_id;
  tool = e.tool;
  args_hash = e.args_hash;
  result = none;
}

abbrev pub stored_result : Option LedgerRow → Value
stored_result none = null
stored_result (some r) = get_or null r.result

-- INSERT … ON CONFLICT DO NOTHING, and else the row that is there. An insertion waits for a concurrent
-- one of the same step, so that the ledger is what it is when the transaction commits.
unfoldable pub claim_tool_execution : String → ToolRequestedEvent → Db → Db × ClaimResult
claim_tool_execution wf e db =
    if any (is_claim_of wf e.step_id) db.ledger
    then (db, already (stored_result (find (is_claim_of wf e.step_id) db.ledger)))
    else (record db { ledger = db.ledger ++ claim_row wf e ∷ [] }, claimed)

abbrev pub set_result : String → String → Value → LedgerRow → LedgerRow
set_result wf step result r =
    if is_claim_of wf step r
    then record r { result = some (written_value (null_if_undefined result)) }
    else r

unfoldable pub complete_tool_execution : String → String → Value → Db → Db
complete_tool_execution wf step result db = record db {
  ledger = map (set_result wf step result) db.ledger;
}

-- The rows that the tool writes on the transaction's connection.
abbrev pub write_effects : String → String → List (String × Value) → Db → Db
write_effects wf step effects db = record db {
  effects = db.effects ++ record { workflow_id = wf; step_id = step; effects = effects } ∷ [];
}
