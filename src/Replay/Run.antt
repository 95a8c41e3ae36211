-- ===== src/Replay/Run.antt =====
-- packages/core/src/replay.ts, lines 198 to 466: the run of a workflow function, and its result.
-- An `await` of a settled promise takes one microtask tick. A returned value is seen after one more,
-- a thrown error after two. When the ticks are used up the workflow counts as still running.
use karya_kram.Base.{
  ℕ, zero, suc, String, Option, none, some, List, [], ◌∷◌, ◌++◌, leb, length, get_elem?,
  if◌then◌else◌,
}
use karya_kram.Base.Dict.{Dict}
use karya_kram.Json.{Value}
use karya_kram.Llm.{LlmRequest}
use karya_kram.Workflow.Events.{StoredWorkflowEvent}
use karya_kram.Replay.Program.{
  Promise, resolved, rejected, pending, Called, promise, thrown, Awaited, fulfilled, Program,
  returns, throws, call, await, WorkflowFn, complete_workflow, fail_workflow, ReplayStatus,
  ReplayResult, ReplayOutcome, threw, replayed,
}
use karya_kram.Replay.Log.{Log, read_history}
use karya_kram.Replay.Context.{Pass, first_pass, Invoked, returned, raised, invoke}

abbrev pub max_drain_ticks : ℕ
max_drain_ticks = 1000

-- `box.settled`
pub data Settled : Type 0 where
  completed : Value → Settled
  failed : String → Settled

abbrev after_ticks : ℕ → ℕ → Settled → Option Settled
after_ticks needed ticks r = if leb needed ticks then some r else none

-- A promise that no call gave is never settled.
abbrev pub promise_at : List Promise → ℕ → Promise
promise_at ps i = elim (get_elem? ps i) [ none ↦ pending | some r ↦ r ]

-- The workflow function goes on with the promise that a call gave, or with the error that it threw.
abbrev pub after_call :
    List Promise
    → Pass
    → (Called → List Promise → Pass → Pass × Option Settled)
    → Invoked
    → Pass × Option Settled
after_call ps p next (returned q r) = next (promise (length ps)) (ps ++ r ∷ []) q
after_call ps p next (raised e) = next (thrown e) ps p

-- It goes on with what a settled promise holds, and stops at one that is never settled.
abbrev pub after_await : Pass → (Awaited → Pass × Option Settled) → Promise → Pass × Option Settled
after_await p next pending = (p, none)
after_await p next (resolved v) = next (fulfilled v)
after_await p next (rejected e) = next (Awaited.failed e)

-- The variables of the pass at the end, and `box.settled`. Promises are kept oldest first.
unfoldable pub run :
    Option (String → String) → Log → Program → ℕ → List Promise → Pass → Pass × Option Settled
run hash log (returns v) ticks ps p = (p, after_ticks 1 ticks (Settled.completed v))
run hash log (throws e) ticks ps p = (p, after_ticks 2 ticks (Settled.failed e))
run hash log (call c k) ticks ps p =
    after_call ps p (λ d qs q. run hash log (k d) ticks qs q) (invoke hash log c p)
run hash log (await i k) zero ps p = (p, none)
run hash log (await i k) (suc ticks) ps p =
    after_await p (λ a. run hash log (k a) ticks ps p) (promise_at ps i)

abbrev non_empty : Dict String LlmRequest → Option (Dict String LlmRequest)
non_empty [] = none
non_empty (x ∷ xs) = some (x ∷ xs)

-- The result of a pass in which no step was found to differ.
abbrev pub to_result : Pass → Option Settled → ReplayResult
to_result p none = record {
  status = ReplayStatus.running;
  result = none;
  error = none;
  commands = p.commands;
  pending_llm_requests = non_empty p.pending_llm_requests;
}
to_result p (some (Settled.completed v)) = record {
  status = ReplayStatus.completed;
  result = some v;
  error = none;
  commands = complete_workflow v ∷ [];
  pending_llm_requests = non_empty p.pending_llm_requests;
}
to_result p (some (Settled.failed e)) = record {
  status = ReplayStatus.failed;
  result = none;
  error = some e;
  commands = fail_workflow e ∷ [];
  pending_llm_requests = non_empty p.pending_llm_requests;
}

abbrev pub finish : Pass → Option Settled → ReplayOutcome
finish p settled = elim p.non_determinism_error [
  | some e ↦ threw e
  | none ↦ replayed (to_result p settled)
]

unfoldable pub replay :
    WorkflowFn → Value → List StoredWorkflowEvent → Option (String → String) → ReplayOutcome
unfolding run read_history
replay workflow_fn input history hash =
    let (p, settled) =
      run hash (read_history history) (workflow_fn input) max_drain_ticks [] first_pass in
    finish p settled
