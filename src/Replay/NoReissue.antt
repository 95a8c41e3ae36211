-- ===== src/Replay/NoReissue.antt =====
-- The commands of a pass, counted by their kind (replay.ts).
use karya_kram.Base.{
  ℕ, zero, suc, ◌+◌, ◌-◌, ◌≤◌, ◌≡◌, ap, String, Bool, true, false, Option, none, some, List, [],
  ◌∷◌, ◌++◌, inl, inr, arith, length, select, length-append, select-append, get_elem?-cases,
}
use karya_kram.Json.{Value}
use karya_kram.Llm.{LlmRequest}
use karya_kram.Replay.Program.{
  Promise, resolved, rejected, pending, Called, Awaited, Call, Program, returns, throws, call,
  await, WorkflowCommand, schedule_timer, request_llm_call, request_tool_call,
}
use karya_kram.Replay.Log.{Log}
use karya_kram.Replay.Context.{
  Pass, first_pass, push, Invoked, returned, raised, schedule_activity, sleep, llm_call, tool_call,
  invoke,
}
use karya_kram.Replay.Run.{Settled, max_drain_ticks, promise_at, after_call, after_await, run}

abbrev pub is_activity_command : WorkflowCommand → Bool
is_activity_command (WorkflowCommand.schedule_activity _ _) = true
is_activity_command _ = false

abbrev pub is_timer_command : WorkflowCommand → Bool
is_timer_command (schedule_timer _) = true
is_timer_command _ = false

abbrev pub is_llm_command : WorkflowCommand → Bool
is_llm_command (request_llm_call _ _ _) = true
is_llm_command _ = false

abbrev pub is_tool_command : WorkflowCommand → Bool
is_tool_command (request_tool_call _ _ _ _) = true
is_tool_command _ = false

abbrev pub number_of : (WorkflowCommand → Bool) → Pass → ℕ
number_of is_kind p = length (select is_kind p.commands)

-- Of each kind there are as many commands as calls beyond those that the history records.
pub record NoReissue (log : Log) (p : Pass) : Type 0 where
  pub activities : number_of is_activity_command p ≡ p.call_index - length log.scheduled_events
  pub timers : number_of is_timer_command p ≡ p.timer_call_index - length log.timer_events
  pub llm_calls : number_of is_llm_command p ≡ p.llm_call_index - length log.llm_requested_events
  pub tool_calls :
      number_of is_tool_command p ≡ p.tool_call_index - length log.tool_requested_events

-- A command at the end counts once for its kind.
number-push :
    (is_kind : WorkflowCommand → Bool) (cs : List WorkflowCommand) (c : WorkflowCommand)
    → length (select is_kind (cs ++ c ∷ []))
      ≡ length (select is_kind cs) + length (select is_kind (c ∷ []))
number-push is_kind cs c = omega (
  arith,
  ap length (select-append is_kind cs (c ∷ [])),
  length-append (select is_kind cs) (select is_kind (c ∷ [])),
)

-- The four counts after `commands.push(c)`.
numbers-push :
    (cs : List WorkflowCommand) (c : WorkflowCommand)
    → (length (select is_activity_command (cs ++ c ∷ []))
        ≡ length (select is_activity_command cs) + length (select is_activity_command (c ∷ [])))
      × (length (select is_timer_command (cs ++ c ∷ []))
          ≡ length (select is_timer_command cs) + length (select is_timer_command (c ∷ [])))
      × (length (select is_llm_command (cs ++ c ∷ []))
          ≡ length (select is_llm_command cs) + length (select is_llm_command (c ∷ [])))
      × (length (select is_tool_command (cs ++ c ∷ []))
          ≡ length (select is_tool_command cs) + length (select is_tool_command (c ∷ [])))
numbers-push cs c = (
  number-push is_activity_command cs c,
  number-push is_timer_command cs c,
  number-push is_llm_command cs c,
  number-push is_tool_command cs c,
)

module _ (log : Log) (p : Pass) (h : NoReissue log p) where
  llm_push-NoReissue :
      (step_id : String) (request : LlmRequest) (request_hash : String)
      → length log.llm_requested_events ≤ p.llm_call_index
      → NoReissue log (
          push
            (request_llm_call step_id request request_hash)
            (record p { llm_call_index = p.llm_call_index + 1 }))
  llm_push-NoReissue step_id request request_hash past =
      ground (arith, numbers-push p.commands (request_llm_call step_id request request_hash))

  tool_push-NoReissue :
      (step_id name : String) (args : Value) (args_hash : String)
      → length log.tool_requested_events ≤ p.tool_call_index
      → NoReissue log (
          push
            (request_tool_call step_id name args args_hash)
            (record p { tool_call_index = p.tool_call_index + 1 }))
  tool_push-NoReissue step_id name args args_hash past =
      ground (arith, numbers-push p.commands (request_tool_call step_id name args args_hash))

  schedule_activity-NoReissue :
      (type : String) (input : Value) → NoReissue log (schedule_activity log type input p).0
  unfolding schedule_activity
  schedule_activity-NoReissue type input =
      elim (get_elem?-cases log.scheduled_events p.call_index) [
        | inl (e, past) ↦
            rw (e, schedule_activity)
              (ground
                (arith, numbers-push p.commands (WorkflowCommand.schedule_activity type input)))
        | inr (a, e, within) ↦ rw (e, schedule_activity) (ground arith)
      ]

  sleep-NoReissue : (duration : ℕ) → NoReissue log (sleep log duration p).0
  unfolding sleep
  sleep-NoReissue duration = elim (get_elem?-cases log.timer_events p.timer_call_index) [
    | inl (e, past) ↦
        rw (e, sleep) (ground (arith, numbers-push p.commands (schedule_timer duration)))
    | inr (a, e, within) ↦ rw (e, sleep) (ground arith)
  ]

  llm_call-NoReissue :
      (hash : String → String) (request : LlmRequest)
      → NoReissue log (llm_call hash log request p).0
  unfolding llm_call
  llm_call-NoReissue hash request =
      elim (get_elem?-cases log.llm_requested_events p.llm_call_index) [
        | inl (e, past) ↦ rw (e, llm_call) (llm_push-NoReissue _ request _ past)
        | inr (a, e, within) ↦ rw (e, llm_call) (ground arith)
      ]

  tool_call-NoReissue :
      (hash : String → String) (name : String) (args : Value)
      → NoReissue log (tool_call hash log name args p).0
  unfolding tool_call
  tool_call-NoReissue hash name args =
      elim (get_elem?-cases log.tool_requested_events p.tool_call_index) [
        | inl (e, past) ↦ rw (e, tool_call) (tool_push-NoReissue _ name args _ past)
        | inr (a, e, within) ↦ rw (e, tool_call) (ground arith)
      ]

-- What is returned by a method of `ctx` satisfies the predicate.
abbrev pub Returns : (Pass → Type 0) → Invoked → Type 0
Returns P (returned q r) = P q
Returns P (raised e) = Unit

invoke-NoReissue :
    (hash : Option (String → String)) (log : Log) (c : Call) (p : Pass)
    → NoReissue log p
    → Returns (NoReissue log) (invoke hash log c p)
unfolding invoke
invoke-NoReissue hash log (Call.schedule_activity type input) p h =
    schedule_activity-NoReissue log p h type input
invoke-NoReissue hash log (Call.sleep duration) p h = sleep-NoReissue log p h duration
invoke-NoReissue hash log (Call.wait_for_signal name) p h = record {
  activities = h.activities;
  timers = h.timers;
  llm_calls = h.llm_calls;
  tool_calls = h.tool_calls;
}
invoke-NoReissue (some hash) log (Call.llm_call request) p h =
    llm_call-NoReissue log p h hash request
invoke-NoReissue (some hash) log (Call.tool_call name args) p h =
    tool_call-NoReissue log p h hash name args
invoke-NoReissue none log (Call.llm_call request) p h = tt
invoke-NoReissue none log (Call.tool_call name args) p h = tt

abbrev Result : Type 0
Result = Pass × Option Settled

after_call-NoReissue :
    (log : Log) (ps : List Promise) (p : Pass) (next : Called → List Promise → Pass → Result)
    (r : Invoked)
    → ((d : Called) (qs : List Promise) (q : Pass)
        → NoReissue log q
        → NoReissue log (next d qs q).0)
    → NoReissue log p
    → Returns (NoReissue log) r
    → NoReissue log (after_call ps p next r).0
after_call-NoReissue log ps p next (returned q r) ih h hr = ih _ _ q hr
after_call-NoReissue log ps p next (raised e) ih h hr = ih _ _ p h

after_await-NoReissue :
    (log : Log) (p : Pass) (next : Awaited → Result) (r : Promise)
    → ((a : Awaited) → NoReissue log (next a).0)
    → NoReissue log p
    → NoReissue log (after_await p next r).0
after_await-NoReissue log p next pending ih h = h
after_await-NoReissue log p next (resolved v) ih h = ih _
after_await-NoReissue log p next (rejected e) ih h = ih _

module _ (hash : Option (String → String)) (log : Log) where
  -- Whatever the workflow function does, the commands of a pass are its calls beyond the history.
  pub run-NoReissue :
      (prog : Program) (ticks : ℕ) (ps : List Promise) (p : Pass)
      → NoReissue log p
      → NoReissue log (run hash log prog ticks ps p).0
  unfolding run
  run-NoReissue (returns v) ticks ps p h = h
  run-NoReissue (throws e) ticks ps p h = h
  run-NoReissue (call c k) ticks ps p h =
      after_call-NoReissue log ps p (λ d qs q. run hash log (k d) ticks qs q) (invoke hash log c p)
        (λ d qs q. run-NoReissue (k d) ticks qs q) h (invoke-NoReissue hash log c p h)
  run-NoReissue (await i k) zero ps p h = h
  run-NoReissue (await i k) (suc ticks) ps p h =
      after_await-NoReissue log p (λ a. run hash log (k a) ticks ps p) (promise_at ps i)
        (λ a. run-NoReissue (k a) ticks ps p h) h

-- After a pass from the top of any workflow function against any log, the number of commands of
-- each kind (activities, timers, LLM calls, tool calls) is the number of calls made of that kind
-- less the number that the log records, or 0 where it records more.
pub pass-NoReissue :
    (hash : Option (String → String)) (log : Log) (prog : Program)
    → NoReissue log (run hash log prog max_drain_ticks [] first_pass).0
pass-NoReissue hash log prog =
    run-NoReissue hash log prog max_drain_ticks [] first_pass (omega arith)
