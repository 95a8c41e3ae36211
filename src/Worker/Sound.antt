-- ===== src/Worker/Sound.antt =====
-- The well-formedness of the tables, whatever the workers do.
use karya_kram.Base.{
  ℕ, ◌≡◌, refl, subst, String, Option, none, some, List, [], ◌∷◌, arith, Bool-cases, Option-cases,
  inl, inr, text_eq, eq_iff, ◌==◌, number_eq,
}
use karya_kram.Base.Dict.{get, put, get-put}
use karya_kram.Workflow.Events.{WorkflowEventPayload}
use karya_kram.Workflow.State.{WorkflowStatus, fold_events}
use karya_kram.Queue.Preserve.{WhenSome}
use karya_kram.Queue.Steps.{step-Inv, steps, reachable-Inv}
use karya_kram.Store.Events.{Db, rows_of, order_by_seq, get_events, append_events}
use karya_kram.Store.Appended.{WellFormed}
use karya_kram.Store.Append.{append-Appended}
use karya_kram.Worker.Handlers.{new_execution}
use karya_kram.Worker.Ledger.{complete_tool_execution}
use karya_kram.Worker.Moves.{Move, moves, empty_db}
use karya_kram.Worker.Kept.{IsKept}
use karya_kram.Worker.KeptMoves.{moves-P}

append_events-WellFormed :
    (now : ℕ) (trace : Option String) (wf : String) (es : List WorkflowEventPayload) (db : Db)
    → WellFormed db
    → WhenSome
        (λ r. WellFormed r.0)
        (append_events now trace (record { workflow_id = wf; events = es }) db)
unfolding append_events
append_events-WellFormed now trace wf [] db ok = tt
append_events-WellFormed now trace wf (e ∷ es) db ok = elim (Option-cases (get wf db.executions)) [
  | inl h ↦ rw (h, append_events) tt
  | inr (s, h) ↦
      let (r, same, appended) = append-Appended now trace wf e es s db ok h in
      rw same appended.well_formed
]

-- A workflow without an execution row has no events, and no events fold to a running workflow.
fresh-running :
    (wf : String) (db : Db)
    → get wf db.executions ≡ none
    → WellFormed db
    → (fold_events (get_events wf db)).status ≡ WorkflowStatus.running
unfolding get_events fold_events order_by_seq
fresh-running wf db fresh ok = rw (ok.rooted wf fresh) refl

new_execution-cached :
    (wf other : String) (s : WorkflowStatus) (db : Db)
    → get wf db.executions ≡ none
    → WellFormed db
    → get other (put wf WorkflowStatus.running db.executions) ≡ some s
    → s ≡ (fold_events (get_events other db)).status
new_execution-cached wf other s db fresh ok h = elim (Bool-cases (wf == other)) [
  | inl e ↦
      subst (λ w. s ≡ (fold_events (get_events w db)).status) ((eq_iff wf other).0 e)
        (rw (fresh-running wf db fresh ok)
          (ground (arith, get-put wf other WorkflowStatus.running db.executions)))
  | inr e ↦
      ok.cached other s (ground (arith, get-put wf other WorkflowStatus.running db.executions))
]

new_execution-WellFormed :
    (wf : String) (db : Db)
    → get wf db.executions ≡ none
    → WellFormed db
    → WellFormed (new_execution wf db)
unfolding new_execution get_events
new_execution-WellFormed wf db fresh ok = record {
  numbered = ok.numbered;
  cached = λ other s h. new_execution-cached wf other s db fresh ok h;
  rooted = λ other h.
      ok.rooted other (ground (arith, get-put wf other WorkflowStatus.running db.executions));
  tasks = ok.tasks;
}

WellFormed-IsKept : IsKept WellFormed
unfolding get_events complete_tool_execution
WellFormed-IsKept = record {
  appended = λ now trace wf es db plain ok. append_events-WellFormed now trace wf es db ok;
  settled = λ now trace wf seq kind event db e t none_yet h.
      append_events-WellFormed now trace wf (event ∷ []) db h;
  ran = λ wf e result effects db free ok. record {
    numbered = ok.numbered;
    cached = ok.cached;
    rooted = ok.rooted;
    tasks = ok.tasks;
  };
  started = new_execution-WellFormed;
  queried = λ q db ok. record {
    numbered = ok.numbered;
    cached = ok.cached;
    rooted = ok.rooted;
    tasks = step-Inv db.tasks q ok.tasks;
  };
}

-- After any sequence of handler runs, entry points and queue queries on empty tables, each history
-- is numbered 1, 2, 3 and so on, the status cache of each workflow is the status that its history
-- folds to, a workflow without an execution row has no events, and the queue's invariant holds.
pub reachable-WellFormed : (ms : List Move) → WellFormed (moves empty_db ms)
reachable-WellFormed ms = moves-P WellFormed WellFormed-IsKept empty_db ms (record {
  numbered = λ wf. unfold rows_of in tt;
  cached = λ wf s h. absurd (no_row wf s h);
  rooted = λ wf h. unfold rows_of in refl;
  tasks = unfold steps in reachable-Inv [];
})
  where
    no_row : (wf : String) (s : WorkflowStatus) → get wf empty_db.executions ≡ some s → ⊥
    no_row wf s h = unfold get in cc
