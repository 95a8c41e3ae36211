-- ===== src/Worker/RunsOnce.antt =====
-- The runs of a tool for a step and the step's ledger rows (toolHandler.ts, toolStore.ts).
use karya_kram.Base.{
  ℕ, ◌≤◌, ◌≡◌, refl, ap, subst, String, Bool, true, false, ◌&&◌, Option, List, [], ◌∷◌, ◌++◌, map,
  arith, any, length, select, select-append, select-none, length-append, Bool-cases, Option-cases,
  inl, inr, text_eq, eq_iff, ◌==◌,
}
use karya_kram.Base.Dict.{get}
use karya_kram.Json.{Value}
use karya_kram.Workflow.Events.{WorkflowEventPayload, ToolRequestedEvent}
use karya_kram.Queue.Preserve.{WhenSome}
use karya_kram.Store.Events.{LedgerRow, EffectBatch, Db, append_rows, append_events}
use karya_kram.Worker.Handlers.{new_execution}
use karya_kram.Worker.Ledger.{
  is_claim_of, claim_row, set_result, complete_tool_execution, write_effects,
}
use karya_kram.Worker.Moves.{Move, moves, empty_db}
use karya_kram.Worker.Kept.{IsKept}
use karya_kram.Worker.KeptMoves.{moves-P}

abbrev pub is_batch_of : String → String → EffectBatch → Bool
is_batch_of wf step b = b.workflow_id == wf && b.step_id == step

-- The ledger's rows of a step, and the runs of its tool whose writes are in the tables.
unfoldable pub claims : String → String → Db → ℕ
claims wf step db = length (select (is_claim_of wf step) db.ledger)

unfoldable pub runs : String → String → Db → ℕ
runs wf step db = length (select (is_batch_of wf step) db.effects)

abbrev RunsOnce : Db → Type 0
RunsOnce db = (wf step : String) → (runs wf step db ≡ claims wf step db) × (claims wf step db ≤ 1)

-- Recording a result moves no row to another step.
set_result-count :
    (wf step other_wf other : String) (result : Value) (rows : List LedgerRow)
    → length (select (is_claim_of other_wf other) (map (set_result wf step result) rows))
      ≡ length (select (is_claim_of other_wf other) rows)
set_result-count wf step other_wf other result [] = refl
set_result-count wf step other_wf other result (r ∷ rows) =
    elim (Bool-cases (is_claim_of wf step r)) [
      | inl c ↦ rw c (ground (arith, set_result-count wf step other_wf other result rows))
      | inr c ↦ rw c (ground (arith, set_result-count wf step other_wf other result rows))
    ]

-- A row for a step that has none is its only one.
claim-le :
    (wf step other_wf other : String) (rows : List LedgerRow)
    → any (is_claim_of wf step) rows ≡ false
    → ((wf == other_wf) && (step == other)) ≡ true
    → length (select (is_claim_of other_wf other) rows) ≡ 0
claim-le wf step other_wf other rows free same =
    let e : (wf ≡ other_wf) × (step ≡ other) =
      ground (arith, eq_iff wf other_wf, eq_iff step other) in
    subst (λ w. length (select (is_claim_of w other) rows) ≡ 0) e.0
      (subst (λ s. length (select (is_claim_of wf s) rows) ≡ 0) e.1
        (ap length (select-none (is_claim_of wf step) rows free)))

ran-RunsOnce :
    (wf : String) (e : ToolRequestedEvent) (result : Value) (effects : List (String × Value))
    (db : Db)
    → any (is_claim_of wf e.step_id) db.ledger ≡ false
    → RunsOnce db
    → RunsOnce (
        complete_tool_execution wf e.step_id result (
          write_effects wf e.step_id effects
            (record db { ledger = db.ledger ++ claim_row wf e ∷ [] })))
unfolding complete_tool_execution runs claims
ran-RunsOnce wf e result effects db free once other_wf other =
    let claim : List LedgerRow = claim_row wf e ∷ [] in
    let batch : List EffectBatch =
      record { workflow_id = wf; step_id = e.step_id; effects = effects } ∷ [] in
    rw
      (
        set_result-count wf e.step_id other_wf other result (db.ledger ++ claim),
        select-append (is_claim_of other_wf other) db.ledger claim,
        length-append (select (is_claim_of other_wf other) db.ledger)
            (select (is_claim_of other_wf other) claim),
        select-append (is_batch_of other_wf other) db.effects batch,
        length-append (select (is_batch_of other_wf other) db.effects)
            (select (is_batch_of other_wf other) batch),
      )
      (elim (Bool-cases ((wf == other_wf) && (e.step_id == other))) [
        | inl same ↦ rw same (
          omega (
            arith,
            once other_wf other,
            claim-le wf e.step_id other_wf other db.ledger free same,
          ),
          omega (arith, claim-le wf e.step_id other_wf other db.ledger free same),
        )
        | inr same ↦
            rw same (omega (arith, (once other_wf other).0), omega (arith, (once other_wf other).1))
      ])

append_events-RunsOnce :
    (now : ℕ) (trace : Option String) (wf : String) (es : List WorkflowEventPayload) (db : Db)
    → RunsOnce db
    → WhenSome
        (λ r. RunsOnce r.0)
        (append_events now trace (record { workflow_id = wf; events = es }) db)
unfolding append_events append_rows runs claims
append_events-RunsOnce now trace wf [] db once = tt
append_events-RunsOnce now trace wf (e ∷ es) db once = elim (Option-cases (get wf db.executions)) [
  | inl h ↦ rw (h, append_events) tt
  | inr (s, h) ↦ rw (h, append_events) once
]

RunsOnce-IsKept : IsKept RunsOnce
unfolding runs claims new_execution
RunsOnce-IsKept = record {
  appended = λ now trace wf es db plain once. append_events-RunsOnce now trace wf es db once;
  settled = λ now trace wf seq kind event db e t none_yet h.
      append_events-RunsOnce now trace wf (event ∷ []) db h;
  ran = ran-RunsOnce;
  started = λ wf db fresh once. once;
  queried = λ q db once. once;
}

-- After any sequence of handler runs (workflow, activity, LLM, tool and timer tasks), signals,
-- cancellations, starts and queue queries on empty tables, where a handler may have read any
-- earlier or other tables, the runs of a tool for a step of a workflow whose writes are in the
-- tables are as many as the step's ledger rows, and at most one.
pub tool_runs_once :
    (ms : List Move) (wf step : String)
    → (runs wf step (moves empty_db ms) ≡ claims wf step (moves empty_db ms))
      × (runs wf step (moves empty_db ms) ≤ 1)
tool_runs_once ms wf step =
    let once =
      moves-P RunsOnce RunsOnce-IsKept empty_db ms
        (λ w s. unfold runs claims in (refl, omega arith)) wf step in
    (once.0, omega (arith, once.0, once.1))
