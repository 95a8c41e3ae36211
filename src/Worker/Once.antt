-- ===== src/Worker/Once.antt =====
-- The outcomes of LLM and tool steps (fencing.ts, lines 34 to 71, llmHandler.ts and toolHandler.ts).
use karya_kram.Base.{
  ℕ, suc, ◌+◌, ◌≤◌, ◌≡◌, refl, subst, String, Bool, true, false, Option, none, some, List, [], ◌∷◌,
  map, ◌++◌, arith, All, length, select, select-append, select-none, length-append, Bool-cases,
  Option-cases, inl, inr, text_eq, eq_iff, ◌==◌, number_eq, is_some_of, ap,
}
use karya_kram.Base.Dict.{get}
use karya_kram.Workflow.Events.{
  llm_completed, llm_failed, tool_completed, tool_failed, WorkflowEventPayload,
}
use karya_kram.Queue.Preserve.{WhenSome}
use karya_kram.Worker.Written.{select-written}
use karya_kram.Store.Column.{as_written}
use karya_kram.Store.Events.{
  EventRow, Db, rows_of, max_seq, start_seq, number_from, append_rows, append_events,
}
use karya_kram.Store.Numbered.{rows_for}
use karya_kram.Worker.Fencing.{has_type, scheduled_event_seq, is_outcome_row, has_step_outcome}
use karya_kram.Worker.Handlers.{new_execution}
use karya_kram.Worker.LlmHandler.{llm_outcome_types}
use karya_kram.Worker.ToolHandler.{tool_outcome_types}
use karya_kram.Replay.Program.{StepKind}
use karya_kram.Worker.Moves.{Move, moves, empty_db}
use karya_kram.Worker.Kept.{step_types, IsPlain, IsKept}
use karya_kram.Worker.KeptMoves.{moves-P}
use karya_kram.Worker.Ledger.{complete_tool_execution}

-- The rows that record an outcome of the step that `seq` scheduled.
unfoldable pub outcomes : StepKind → String → ℕ → Db → ℕ
outcomes kind wf seq db = length (select (is_outcome_row wf seq (step_types kind)) db.events)

abbrev Once : Db → Type 0
Once db = (kind : StepKind) (wf : String) (seq : ℕ) → outcomes kind wf seq db ≤ 1

plain-kind :
    (kind : StepKind) (e : WorkflowEventPayload) → IsPlain e → has_type (step_types kind) e ≡ false
plain-kind StepKind.llm e h = ground arith
plain-kind StepKind.tool e h = ground arith

-- No event is the outcome of both kinds of step.
not_both :
    (e : WorkflowEventPayload)
    → has_type llm_outcome_types e ≡ true
    → has_type tool_outcome_types e ≡ false
not_both (llm_completed r) h = refl
not_both (llm_failed r) h = refl
not_both (tool_completed r) h = cc
not_both (tool_failed r) h = cc
not_both _ h = refl

same-kind :
    (kind at : StepKind) (e : WorkflowEventPayload)
    → has_type (step_types kind) e ≡ true
    → has_type (step_types at) e ≡ true
    → kind ≡ at
same-kind StepKind.llm StepKind.llm e h k = refl
same-kind StepKind.tool StepKind.tool e h k = refl
same-kind StepKind.llm StepKind.tool e h k = ground (arith, not_both e h)
same-kind StepKind.tool StepKind.llm e h k = ground (arith, not_both e k)

abbrev new_rows : String → List WorkflowEventPayload → Db → List EventRow
new_rows wf es db =
    rows_for wf (map as_written (number_from (start_seq (max_seq (rows_of wf db.events))) es))

append_events-rows :
    (now : ℕ) (trace : Option String) (wf : String) (es : List WorkflowEventPayload) (db : Db)
    → WhenSome
        (λ r. r.0.events ≡ db.events ++ new_rows wf es db)
        (append_events now trace (record { workflow_id = wf; events = es }) db)
unfolding append_events append_rows
append_events-rows now trace wf [] db = tt
append_events-rows now trace wf (e ∷ es) db = elim (Option-cases (get wf db.executions)) [
  | inl h ↦ rw (h, append_events) tt
  | inr (s, h) ↦ rw (h, append_events) refl
]

-- The outcomes after an append are those before and those among the new rows.
outcomes-append :
    (kind : StepKind) (wf : String) (seq : ℕ) (db next : Db) (rows : List EventRow)
    → next.events ≡ db.events ++ rows
    → outcomes kind wf seq next
      ≡ outcomes kind wf seq db + length (select (is_outcome_row wf seq (step_types kind)) rows)
unfolding outcomes
outcomes-append kind wf seq db next rows e =
    let p : EventRow → Bool = is_outcome_row wf seq (step_types kind) in
    rw (e, select-append p db.events rows) (length-append (select p db.events) (select p rows))

plain-rows :
    (kind : StepKind) (wf other : String) (seq n : ℕ) (es : List WorkflowEventPayload)
    → All IsPlain es
    → length (select (is_outcome_row other seq (step_types kind)) (rows_for wf (number_from n es)))
      ≡ 0
unfolding number_from
plain-rows kind wf other seq n [] plain = refl
plain-rows kind wf other seq n (e ∷ es) plain =
    ground (arith, plain-kind kind e plain.0, plain-rows kind wf other seq (suc n) es plain.1)

WhenSome-map {ℓ κ μ} :
    {A : Type ℓ} {P : A → Type κ} {Q : A → Type μ} (o : Option A)
    → ((a : A) → P a → Q a)
    → WhenSome P o
    → WhenSome Q o
WhenSome-map none h w = tt
WhenSome-map (some a) h w = h a w

appended-Once :
    (now : ℕ) (trace : Option String) (wf : String) (es : List WorkflowEventPayload) (db : Db)
    → All IsPlain es
    → Once db
    → WhenSome
        (λ r. Once r.0)
        (append_events now trace (record { workflow_id = wf; events = es }) db)
appended-Once now trace wf es db plain once =
    WhenSome-map (append_events now trace (record { workflow_id = wf; events = es }) db)
      (λ r e kind other seq. omega (
        arith,
        once kind other seq,
        outcomes-append kind other seq db r.0 (new_rows wf es db) e,
        select-written wf other seq (step_types kind)
            (number_from (start_seq (max_seq (rows_of wf db.events))) es),
        plain-rows kind wf other seq (start_seq (max_seq (rows_of wf db.events))) es plain,
      ))
      (append_events-rows now trace wf es db)

outcome_row-same :
    (kind : StepKind) (wf other : String) (seq k n : ℕ) (event : WorkflowEventPayload)
    → scheduled_event_seq event ≡ some seq
    → is_outcome_row other k
        (step_types kind)
        (record { workflow_id = wf; stored = record { seq = n; event = event } })
      ≡ true
    → (wf ≡ other) × (seq ≡ k)
outcome_row-same kind wf other seq k n event e b =
    let h : ((wf == other) ≡ true) × (is_some_of k (scheduled_event_seq event) ≡ true) =
      ground arith in
    let same_seq : is_some_of k (some seq) ≡ true = rw e at h.1 in
    ((eq_iff wf other).0 h.0, ground arith)

none_yet-zero :
    (kind : StepKind) (wf other : String) (seq k : ℕ) (db : Db)
    → has_step_outcome wf seq (step_types kind) db ≡ false
    → wf ≡ other
    → seq ≡ k
    → outcomes kind other k db ≡ 0
unfolding outcomes has_step_outcome
none_yet-zero kind wf other seq k db none_yet same_wf same_seq =
    subst (λ w. outcomes kind w k db ≡ 0) same_wf
      (subst (λ j. outcomes kind wf j db ≡ 0) same_seq
        (ap length (select-none (is_outcome_row wf seq (step_types kind)) db.events none_yet)))

-- The one new row is an outcome of its own step alone, which had none.
one-row :
    (kind at : StepKind) (wf other : String) (seq k n : ℕ) (event : WorkflowEventPayload) (db : Db)
    → scheduled_event_seq event ≡ some seq
    → has_type (step_types kind) event ≡ true
    → has_step_outcome wf seq (step_types kind) db ≡ false
    → outcomes at other k db ≤ 1
    → outcomes at other k db
        + length (
            select
              (is_outcome_row other k (step_types at))
              (rows_for wf (number_from n (event ∷ []))))
      ≤ 1
unfolding number_from
one-row kind at wf other seq k n event db e t none_yet le =
    elim (Bool-cases (
      is_outcome_row other k (step_types at)
        (record { workflow_id = wf; stored = record { seq = n; event = event } }))) [
          | inl b ↦
              let same = outcome_row-same at wf other seq k n event e b in
              let typed : has_type (step_types at) event ≡ true = ground arith in
              let none_at : has_step_outcome wf seq (step_types at) db ≡ false =
                subst (λ x. has_step_outcome wf seq (step_types x) db ≡ false)
                  (same-kind kind at event t typed) none_yet in
              rw (b, none_yet-zero at wf other seq k db none_at same.0 same.1) (omega arith)
          | inr b ↦ rw b (omega arith)
        ]

settled-Once :
    (now : ℕ) (trace : Option String) (wf : String) (seq : ℕ) (kind : StepKind)
    (event : WorkflowEventPayload) (db : Db)
    → scheduled_event_seq event ≡ some seq
    → has_type (step_types kind) event ≡ true
    → has_step_outcome wf seq (step_types kind) db ≡ false
    → Once db
    → WhenSome
        (λ r. Once r.0)
        (append_events now trace (record { workflow_id = wf; events = event ∷ [] }) db)
settled-Once now trace wf seq kind event db e t none_yet once =
    let n = start_seq (max_seq (rows_of wf db.events)) in
    WhenSome-map (append_events now trace (record { workflow_id = wf; events = event ∷ [] }) db)
      (λ r same at other k. omega (
        arith,
        one-row kind at wf other seq k n event db e t none_yet (once at other k),
        select-written wf other k (step_types at) (number_from n (event ∷ [])),
        outcomes-append at other k db r.0 (new_rows wf (event ∷ []) db) same,
      ))
      (append_events-rows now trace wf (event ∷ []) db)

Once-IsKept : IsKept Once
unfolding outcomes new_execution complete_tool_execution
Once-IsKept = record {
  appended = appended-Once;
  settled = settled-Once;
  ran = λ wf e result effects db free once. once;
  started = λ wf db fresh once. once;
  queried = λ q db once. once;
}

-- After any sequence of handler runs (workflow, activity, LLM, tool and timer tasks), signals,
-- cancellations, starts and queue queries on empty tables, where a handler may have read any
-- earlier or other tables, the step that an event of a workflow scheduled has at most one recorded
-- outcome of an LLM call, and at most one of a tool call.
pub step_outcome_once :
    (ms : List Move) (kind : StepKind) (wf : String) (seq : ℕ)
    → outcomes kind wf seq (moves empty_db ms) ≤ 1
step_outcome_once ms =
    moves-P Once Once-IsKept empty_db ms (λ kind wf seq. unfold outcomes in omega arith)
