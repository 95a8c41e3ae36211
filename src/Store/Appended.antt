-- ===== src/Store/Appended.antt =====
-- What `appendEvents` does to histories, the status cache and the queue (eventStore.ts, lines 38 to 139).
use karya_kram.Base.{
  ℕ, ◌+◌, ◌≡◌, refl, sym, subst, String, false, Option, none, some, List, [], ◌∷◌, ◌++◌, map, suc,
  append-nil, ◌∙◌, arith, length, Bool-cases, inl, inr, ◌==◌, text_eq, eq_iff, ◌≢◌, if◌then◌else◌,
}
use karya_kram.Base.Dict.{get, get-put}
use karya_kram.Workflow.Events.{WorkflowEventPayload, StoredWorkflowEvent}
use karya_kram.Workflow.State.{WorkflowStatus, fold_events}
use karya_kram.Queue.Invariant.{Inv}
use karya_kram.Queue.Preserve.{enqueue-Inv}
use karya_kram.Store.Column.{as_written}
use karya_kram.Store.Events.{Db, rows_of, get_events, workflow_task, append_rows}
use karya_kram.Store.Enqueued.{enqueue_all-Inv}
use karya_kram.Store.Numbered.{
  Numbered, Numbered-append, order_by_seq-Numbered, rows_of-append, rows_of-rows_for_self,
  rows_of-rows_for_ne, rows_for,
}

-- Histories are numbered from 1 without gaps, the status cache is what the history folds to, and the
-- queue's invariant holds. A workflow without an execution row has no events.
pub record WellFormed (db : Db) : Type 0 where
  pub numbered : (wf : String) → Numbered 1 (rows_of wf db.events)
  pub cached :
      (wf : String) (s : WorkflowStatus)
      → get wf db.executions ≡ some s
      → s ≡ (fold_events (get_events wf db)).status
  pub rooted : (wf : String) → get wf db.executions ≡ none → rows_of wf db.events ≡ []
  pub tasks : Inv db.tasks

pub get_events-rows_of :
    (wf : String) (db : Db)
    → Numbered 1 (rows_of wf db.events)
    → get_events wf db ≡ rows_of wf db.events
unfolding get_events
get_events-rows_of wf db h = order_by_seq-Numbered 1 (rows_of wf db.events) h

none≢some {ℓ} : {A : Type ℓ} {a : A} → none ≢ some a
none≢some h = cc

some-inj {ℓ} : {A : Type ℓ} (a b : A) → some a ≡ some b → a ≡ b
some-inj a b h = cc

Numbered-written :
    (n : ℕ) (es : List StoredWorkflowEvent) → Numbered n es → Numbered n (map as_written es)
unfolding as_written
Numbered-written n [] h = h
Numbered-written n (e ∷ es) h = (h.0, Numbered-written (suc n) es h.1)

module _ (now : ℕ) (trace : Option String) (wf : String) (stored : List StoredWorkflowEvent)
    (es : List WorkflowEventPayload) (db : Db) where
  abbrev pub after : Db
  after = (append_rows now trace (record { workflow_id = wf; events = es }) stored db).0

  rows_of-after : rows_of wf after.events ≡ rows_of wf db.events ++ map as_written stored
  unfolding append_rows
  rows_of-after =
      rw
        (
          rows_of-append wf db.events (rows_for wf (map as_written stored)),
          rows_of-rows_for_self wf (map as_written stored),
        )
        refl

  rows_of-after_ne :
      (other : String) → wf ≢ other → rows_of other after.events ≡ rows_of other db.events
  unfolding append_rows
  rows_of-after_ne other ne =
      rw
        (
          rows_of-append other db.events (rows_for wf (map as_written stored)),
          rows_of-rows_for_ne wf other (map as_written stored) ne,
        )
        (append-nil (rows_of other db.events))

  executions-after :
      (other : String)
      → get other after.executions ≡ (
          if wf == other
          then some (fold_events (get_events wf after)).status
          else get other db.executions)
  unfolding append_rows get_events
  executions-after other = get-put wf other (fold_events (get_events wf after)).status db.executions

  after-Inv : Inv db.tasks → Inv after.tasks
  unfolding append_rows
  after-Inv inv =
      enqueue-Inv (workflow_task wf trace) now _ (enqueue_all-Inv wf trace now stored db.tasks inv)

  module _ (ok : WellFormed db)
      (consecutive : Numbered (1 + length (rows_of wf db.events)) stored) where
    after-Numbered : (other : String) → Numbered 1 (rows_of other after.events)
    after-Numbered other = elim (Bool-cases (wf == other)) [
      | inl e ↦
          subst (λ w. Numbered 1 (rows_of w after.events)) ((eq_iff wf other).0 e)
            (subst (Numbered 1) (sym rows_of-after) (
              Numbered-append 1 (rows_of wf db.events) (map as_written stored) (ok.numbered wf)
                (Numbered-written _ stored consecutive)))
      | inr e ↦
          subst (Numbered 1) (sym (rows_of-after_ne other (differ other e))) (ok.numbered other)
    ]
      where
        differ : (other : String) → (wf == other) ≡ false → wf ≢ other
        differ other e h = ground (arith, eq_iff wf other)

    pub history-after : get_events wf after ≡ get_events wf db ++ map as_written stored
    history-after =
        rw
          (
            get_events-rows_of wf after (after-Numbered wf),
            get_events-rows_of wf db (ok.numbered wf),
          )
          rows_of-after

    pub history-after_ne :
        (other : String) → wf ≢ other → get_events other after ≡ get_events other db
    history-after_ne other ne =
        rw
          (
            get_events-rows_of other after (after-Numbered other),
            get_events-rows_of other db (ok.numbered other),
          )
          (rows_of-after_ne other ne)

    after-cached :
        (other : String) (s : WorkflowStatus)
        → get other after.executions ≡ some s
        → s ≡ (fold_events (get_events other after)).status
    after-cached other s h = elim (Bool-cases (wf == other)) [
      | inl e ↦
          subst (λ w. s ≡ (fold_events (get_events w after)).status) ((eq_iff wf other).0 e)
            (some-inj s _ (rw e at (sym h ∙ executions-after other)))
      | inr e ↦
          let ne : wf ≢ other = ground (arith, eq_iff wf other) in
          rw (history-after_ne other ne)
            (ok.cached other s (rw e at (sym (executions-after other) ∙ h)))
    ]

    after-rooted :
        (other : String) → get other after.executions ≡ none → rows_of other after.events ≡ []
    after-rooted other h = elim (Bool-cases (wf == other)) [
      | inl e ↦ absurd (none≢some (rw e at (sym h ∙ executions-after other)))
      | inr e ↦
          let ne : wf ≢ other = ground (arith, eq_iff wf other) in
          rw (rows_of-after_ne other ne)
            (ok.rooted other (rw e at (sym (executions-after other) ∙ h)))
    ]

    pub after-WellFormed : WellFormed after
    after-WellFormed = record {
      numbered = after-Numbered;
      cached = after-cached;
      rooted = after-rooted;
      tasks = after-Inv ok.tasks;
    }
