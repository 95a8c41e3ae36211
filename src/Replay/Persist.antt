-- ===== src/Replay/Persist.antt =====
-- The replay of a history to which events are appended (replay.ts).
use mathlib.Core.List.{foldl, foldl-append, filter_map, filter_map-append}
use karya_kram.Base.{
  ℕ, zero, suc, ◌≡◌, ◌≢◌, refl, sym, subst, String, Option, none, some, List, [], ◌∷◌, ◌++◌, arith,
  number_eq, text_eq, get_elem?, All,
}
use karya_kram.Base.Dict.{Dict, get, get-put}
use karya_kram.Json.{Value}
use karya_kram.Llm.{get_or}
use karya_kram.Workflow.Events.{WorkflowEventPayload, signal_received, StoredWorkflowEvent}
use karya_kram.Replay.Program.{WorkflowFn, running, ReplayResult, ReplayOutcome, threw, replayed}
use karya_kram.Replay.Log.{
  put_outcome, set_outcome, outcome_by_seq, add_signal, read_history, activity_outcome, llm_outcome,
  tool_outcome, timer_outcome, activity_entry, timer_entry, llm_entry, tool_entry,
}
use karya_kram.Replay.Context.{Pass, first_pass}
use karya_kram.Replay.Run.{Settled, max_drain_ticks, run, finish, replay}
use karya_kram.Replay.Monotone.{Keeps, Extends, run-settled}

abbrev IsNew : {V : Type 0} → Dict ℕ V → Option (ℕ × V) → Type 0
IsNew m none = Unit
IsNew m (some (seq, v)) = get seq m ≡ none

-- An event that settles nothing which is settled in the map already.
abbrev pub SettlesNew :
    {V : Type 0} → (WorkflowEventPayload → Option (ℕ × V)) → Dict ℕ V → StoredWorkflowEvent → Type 0
SettlesNew read m e = IsNew m (read e.event)

Keeps-trans {ℓ} : {A : Type ℓ} (a b c : Option A) → Keeps a b → Keeps b c → Keeps a c
Keeps-trans none b c h k = tt
Keeps-trans (some a) b c h k = ground arith

Keeps-refl {ℓ} : {A : Type ℓ} (a : Option A) → Keeps a a
Keeps-refl none = tt
Keeps-refl (some a) = refl

-- An entry that is there stays under `push` at the end.
Keeps-get_elem? {ℓ} :
    {A : Type ℓ} (xs ys : List A) (i : ℕ) → Keeps (get_elem? xs i) (get_elem? (xs ++ ys) i)
Keeps-get_elem? [] ys i = tt
Keeps-get_elem? (x ∷ xs) ys zero = refl
Keeps-get_elem? (x ∷ xs) ys (suc i) = Keeps-get_elem? xs ys i

module _ {V : Type 0} (m : Dict ℕ V) (seq : ℕ) where
  put_outcome-Keeps :
      (n : Dict ℕ V) (o : Option (ℕ × V))
      → IsNew m o
      → Keeps (get seq m) (get seq n)
      → Keeps (get seq m) (get seq (put_outcome n o))
  put_outcome-Keeps n none new k = k
  put_outcome-Keeps n (some (j, v)) new k = ground (arith, get-put j seq v n)

  outcomes-Keeps :
      (read : WorkflowEventPayload → Option (ℕ × V)) (n : Dict ℕ V)
      (later : List StoredWorkflowEvent)
      → All (SettlesNew read m) later
      → Keeps (get seq m) (get seq n)
      → Keeps (get seq m) (get seq (foldl (set_outcome read) n later))
  outcomes-Keeps read n [] new k = k
  outcomes-Keeps read n (e ∷ later) new k =
      outcomes-Keeps read (set_outcome read n e) later new.1
        (put_outcome-Keeps n (read e.event) new.0 k)

-- The outcomes of a history stay under one that settles no more of its steps again.
outcome_by_seq-Keeps :
    {V : Type 0} (read : WorkflowEventPayload → Option (ℕ × V))
    (history later : List StoredWorkflowEvent) (seq : ℕ)
    → All (SettlesNew read (outcome_by_seq read history)) later
    → Keeps
        (get seq (outcome_by_seq read history))
        (get seq (outcome_by_seq read (history ++ later)))
unfolding outcome_by_seq
outcome_by_seq-Keeps read history later seq new = rw foldl-append (
    outcomes-Keeps (outcome_by_seq read history) seq read (outcome_by_seq read history) later new
      (Keeps-refl _))

-- A timer that has fired may fire again.
timers-Keeps :
    (n : Dict ℕ (Unit {0})) (later : List StoredWorkflowEvent) (seq : ℕ)
    → Keeps (get seq n) (get seq (foldl (set_outcome timer_outcome) n later))
timers-Keeps n [] seq = Keeps-refl _
timers-Keeps n (e ∷ later) seq =
    Keeps-trans (get seq n) _ _ (one (timer_outcome e.event))
      (timers-Keeps (set_outcome timer_outcome n e) later seq)
  where
    one : (o : Option (ℕ × Unit {0})) → Keeps (get seq n) (get seq (put_outcome n o))
    one none = Keeps-refl _
    one (some (j, v)) = ground (arith, get-put j seq v n)

abbrev signals_in : Dict String (List Value) → String → List Value
signals_in m name = get_or [] (get name m)

signal-Keeps :
    (m : Dict String (List Value)) (e : StoredWorkflowEvent) (name : String) (i : ℕ)
    → Keeps (get_elem? (signals_in m name) i) (get_elem? (signals_in (add_signal m e) name) i)
signal-Keeps m e name i = one e.event
  where
    one :
        (p : WorkflowEventPayload)
        → Keeps
            (get_elem? (signals_in m name) i)
            (get_elem? (signals_in (add_signal m (record { seq = 0; event = p })) name) i)
    one (signal_received n payload) = ground (
      arith,
      get-put n name (signals_in m n ++ payload ∷ []) m,
      text_eq.equals_iff n name,
      Keeps-get_elem? (signals_in m n) (payload ∷ []) i,
      Keeps-refl (get_elem? (signals_in m name) i),
    )
    one _ = Keeps-refl _

signals-Keeps :
    (m : Dict String (List Value)) (later : List StoredWorkflowEvent) (name : String) (i : ℕ)
    → Keeps
        (get_elem? (signals_in m name) i)
        (get_elem? (signals_in (foldl add_signal m later) name) i)
signals-Keeps m [] name i = Keeps-refl _
signals-Keeps m (e ∷ later) name i =
    Keeps-trans (get_elem? (signals_in m name) i) _ _ (signal-Keeps m e name i)
      (signals-Keeps (add_signal m e) later name i)

entries-Keeps :
    {V : Type 0} (read : StoredWorkflowEvent → Option V) (history later : List StoredWorkflowEvent)
    (i : ℕ)
    → Keeps
        (get_elem? (filter_map read history) i)
        (get_elem? (filter_map read (history ++ later)) i)
entries-Keeps read history later i =
    rw (filter_map-append read history later) (Keeps-get_elem? _ (filter_map read later) i)

-- No event of `later` settles a step that `history` has settled.
pub record Continues (history later : List StoredWorkflowEvent) : Type 0 where
  pub activities : All (SettlesNew activity_outcome (outcome_by_seq activity_outcome history)) later
  pub llm_calls : All (SettlesNew llm_outcome (outcome_by_seq llm_outcome history)) later
  pub tool_calls : All (SettlesNew tool_outcome (outcome_by_seq tool_outcome history)) later

Continues-Extends :
    (history later : List StoredWorkflowEvent)
    → Continues history later
    → Extends (read_history history) (read_history (history ++ later))
unfolding read_history
Continues-Extends history later c = record {
  activities = entries-Keeps activity_entry history later;
  llm_calls = entries-Keeps llm_entry history later;
  tool_calls = entries-Keeps tool_entry history later;
  timers = entries-Keeps timer_entry history later;
  signals = λ name i. rw (foldl-append add_signal [] history later) (signals-Keeps _ later name i);
  outcomes = λ seq. outcome_by_seq-Keeps activity_outcome history later seq c.activities;
  llm_outcomes = λ seq. outcome_by_seq-Keeps llm_outcome history later seq c.llm_calls;
  tool_outcomes = λ seq. outcome_by_seq-Keeps tool_outcome history later seq c.tool_calls;
  fired_timers = λ seq.
      rw (foldl-append (set_outcome timer_outcome) [] history later) (timers-Keeps _ later seq);
}

abbrev pub settled_after :
    WorkflowFn → Value → List StoredWorkflowEvent → Option (String → String) → Option Settled
settled_after fn input history hash =
    (run hash (read_history history) (fn input) max_drain_ticks [] first_pass).1

settled-append :
    (fn : WorkflowFn) (input : Value) (hash : Option (String → String))
    (history later : List StoredWorkflowEvent) (s : Settled)
    → Continues history later
    → settled_after fn input history hash ≡ some s
    → settled_after fn input (history ++ later) hash ≡ some s
settled-append fn input hash history later s c h =
    run-settled hash _ _ (Continues-Extends history later c) s (fn input) max_drain_ticks [] []
      first_pass first_pass tt
      (record {
        calls = refl;
        timer_calls = refl;
        llm_calls = refl;
        tool_calls = refl;
        signal_calls = refl;
      })
      h

-- The same result, or a step found to differ.
abbrev pub SameEnd : ReplayResult → ReplayOutcome → Type 0
SameEnd r (threw n) = Unit
SameEnd r (replayed t) =
    (t.status ≡ r.status) × (t.result ≡ r.result) × (t.error ≡ r.error) × (t.commands ≡ r.commands)

finish-SameEnd :
    (p q : Pass) (o o' : Option Settled) (r : ReplayResult)
    → ((s : Settled) → o ≡ some s → o' ≡ some s)
    → r.status ≢ running
    → finish p o ≡ replayed r
    → SameEnd r (finish q o')
finish-SameEnd p q none o' r keep ended h = absurd (ended (ground arith))
finish-SameEnd p q (some (Settled.completed v)) o' r keep ended h =
    subst (λ x. SameEnd r (finish q x)) (sym (keep (Settled.completed v) refl)) (ground arith)
finish-SameEnd p q (some (Settled.failed e)) o' r keep ended h =
    subst (λ x. SameEnd r (finish q x)) (sym (keep (Settled.failed e) refl)) (ground arith)

-- Where a replay has returned or thrown, the replay of the same history with more events appended
-- ends with the same status, result, error and commands, or throws a non-determinism error; the
-- appended events must settle no activity, LLM step or tool step that the history has settled
-- already.
pub replay-append :
    (fn : WorkflowFn) (input : Value) (hash : Option (String → String))
    (history later : List StoredWorkflowEvent) (r : ReplayResult)
    → Continues history later
    → r.status ≢ running
    → replay fn input history hash ≡ replayed r
    → SameEnd r (replay fn input (history ++ later) hash)
unfolding replay
replay-append fn input hash history later r c ended h =
    finish-SameEnd (run hash (read_history history) (fn input) max_drain_ticks [] first_pass).0
      (run hash (read_history (history ++ later)) (fn input) max_drain_ticks [] first_pass).0
      (settled_after fn input history hash) _ r
      (λ s. settled-append fn input hash history later s c) ended h
