-- ===== src/Replay/Agreement.antt =====
-- The two readers of a history: the state that workflow.ts folds to, and the outcomes by which replay.ts
-- settles the promises of activities.
use mathlib.Core.List.{foldl}
use mathlib.Core.Option
use karya_kram.Base.{
  ℕ, suc, ◌≤◌, ◌<◌, ◌≡◌, refl, String, Option, none, some, List, [], ◌∷◌, arith, number_eq, ◌==◌,
  if◌then◌else◌,
}
use karya_kram.Base.Dict.{Dict, get, put, get-put}
use karya_kram.Json.{Value}
use karya_kram.Workflow.Events.{
  WorkflowEventPayload, activity_scheduled, activity_completed, activity_failed,
  StoredWorkflowEvent,
}
use karya_kram.Workflow.State.{
  ActivityStatus, ActivityState, WorkflowState, initial_state, amend, apply_event, fold_events,
}
use karya_kram.Workflow.Amend.{get-amend}
use karya_kram.Replay.Log.{
  ActivityOutcome, activity_outcome, put_outcome, set_outcome, outcome_by_seq,
}

-- What the folded state says of an activity, as an outcome.
abbrev outcome_of : ActivityStatus → Option Value → Option String → Option ActivityOutcome
outcome_of ActivityStatus.scheduled result error = none
outcome_of ActivityStatus.completed result error = Option.map ActivityOutcome.completed result
outcome_of ActivityStatus.failed result error = Option.map ActivityOutcome.failed error

abbrev pub settled_activity : ActivityState → Option ActivityOutcome
settled_activity a = outcome_of a.status a.result a.error

abbrev Below : ℕ → Option (ℕ × ActivityOutcome) → Type 0
Below n none = Unit
Below n (some (seq, o)) = seq < n

-- Sequence numbers rise from `n` on, and an activity's outcome refers to an earlier event.
abbrev pub IsOrdered : ℕ → List StoredWorkflowEvent → Type 0
IsOrdered n [] = Unit
IsOrdered n (e ∷ es) =
    (n ≤ e.seq) × Below e.seq (activity_outcome e.event) × IsOrdered (suc e.seq) es

abbrev Agrees : Option ActivityState → Option ActivityOutcome → Type 0
Agrees none o = Unit
Agrees (some a) o = settled_activity a ≡ o

record Inv (n : ℕ) (s : WorkflowState) (m : Dict ℕ ActivityOutcome) : Type 0 where
  agree : (seq : ℕ) → Agrees (get seq s.activities) (get seq m)
  unsettled : (seq : ℕ) → n ≤ seq → get seq m ≡ none

-- An outcome for `k` amends the entry of `k`, and settles it alike.
amend-Agrees :
    (k j : ℕ) (f : ActivityState → ActivityState) (o : ActivityOutcome)
    (acts : Dict ℕ ActivityState) (m : Dict ℕ ActivityOutcome)
    → ((a : ActivityState) → settled_activity (f a) ≡ some o)
    → Agrees (get j acts) (get j m)
    → Agrees (get j (amend k f acts)) (get j (put k o m))
amend-Agrees k j f o acts m settles agree =
    rw (get-amend k j f acts, get-put k j o m) (split (get k acts))
  where
    split :
        (x : Option ActivityState)
        → Agrees
            (if k == j then Option.map f x else get j acts)
            (if k == j then some o else get j m)
    split none = ground arith
    split (some a) = ground (arith, settles a)

step-Inv :
    (n seq : ℕ) (p : WorkflowEventPayload) (s : WorkflowState) (m : Dict ℕ ActivityOutcome)
    → n ≤ seq
    → Below seq (activity_outcome p)
    → Inv n s m
    → Inv
        (suc seq)
        (apply_event s (record { seq = seq; event = p }))
        (put_outcome m (activity_outcome p))
unfolding apply_event
step-Inv n seq (activity_scheduled type input) s m le b inv = record {
  agree = λ j. ground (
    arith,
    inv.agree j,
    inv.unsettled seq le,
    get-put seq j
        (record {
          activity_type = type;
          status = ActivityStatus.scheduled;
          result = none;
          error = none;
        })
        s.activities,
  );
  unsettled = λ j lt. inv.unsettled j (omega arith);
}
step-Inv n seq (activity_completed k result) s m le b inv = record {
  agree = λ j.
      amend-Agrees k j _ (ActivityOutcome.completed result) s.activities m (λ a. refl)
        (inv.agree j);
  unsettled =
      λ j lt. ground (arith, get-put k j (ActivityOutcome.completed result) m, inv.unsettled j);
}
step-Inv n seq (activity_failed k error) s m le b inv = record {
  agree = λ j.
      amend-Agrees k j _ (ActivityOutcome.failed error) s.activities m (λ a. refl) (inv.agree j);
  unsettled = λ j lt. ground (arith, get-put k j (ActivityOutcome.failed error) m, inv.unsettled j);
}
step-Inv n seq _ s m le b inv = record {
  agree = inv.agree;
  unsettled = λ j lt. inv.unsettled j (omega arith);
}

fold-Inv :
    (n : ℕ) (es : List StoredWorkflowEvent) (s : WorkflowState) (m : Dict ℕ ActivityOutcome)
    → IsOrdered n es
    → Inv n s m
    → (seq : ℕ)
    → Agrees
        (get seq (foldl apply_event s es).activities)
        (get seq (foldl (set_outcome activity_outcome) m es))
fold-Inv n [] s m h inv = inv.agree
fold-Inv n (e ∷ es) s m h inv =
    fold-Inv (suc e.seq) es _ _ h.2 (step-Inv n e.seq e.event s m h.0 h.1 inv)

-- In a history whose sequence numbers ascend from 1 on and whose activity outcomes refer to
-- earlier events, the status, result and error that the folded state shows of an activity are the
-- outcome with which a replay of the history settles its promise: none while it is scheduled.
pub fold-agrees-replay :
    (history : List StoredWorkflowEvent) (seq : ℕ) (a : ActivityState)
    → IsOrdered 1 history
    → get seq (fold_events history).activities ≡ some a
    → settled_activity a ≡ get seq (outcome_by_seq activity_outcome history)
unfolding fold_events outcome_by_seq
fold-agrees-replay history seq a h e = rw e at (
    fold-Inv 1 history initial_state [] h
      (record { agree = λ j. unfold get in tt; unsettled = λ j lt. unfold get in refl }) seq)
