-- ===== src/Replay/Monotone.antt =====
-- A run of a workflow function against a log and against one that extends it (replay.ts).
use karya_kram.Base.{
  ℕ, zero, suc, ◌≡◌, refl, String, Option, none, some, List, [], ◌∷◌, ◌++◌, inl, inr, arith,
  number_eq, text_eq, length, get_elem?, get_elem?-cases,
}
use karya_kram.Base.Dict.{get}
use karya_kram.Json.{Value}
use karya_kram.Llm.{LlmRequest, get_or}
use karya_kram.Replay.Program.{
  Promise, resolved, rejected, pending, Called, Awaited, Call, Program, returns, throws, call,
  await,
}
use karya_kram.Replay.Log.{Log}
use karya_kram.Replay.Context.{
  Pass, Invoked, returned, raised, schedule_activity, sleep, llm_call, tool_call, wait_for_signal,
  invoke,
}
use karya_kram.Replay.Run.{Settled, promise_at, after_call, after_await, run}

-- What is known stays as it is; what is not may become known.
abbrev pub Keeps {ℓ} : {A : Type ℓ} → Option A → Option A → Type ℓ
Keeps none o = Unit
Keeps (some a) o = o ≡ some a

abbrev pub signal_at : Log → String → ℕ → Option Value
signal_at log name i = get_elem? (get_or [] (get name log.signal_events)) i

-- All that the first log answers, the second answers alike.
pub record Extends (log log' : Log) : Type 0 where
  pub activities :
      (i : ℕ) → Keeps (get_elem? log.scheduled_events i) (get_elem? log'.scheduled_events i)
  pub llm_calls :
      (i : ℕ) → Keeps (get_elem? log.llm_requested_events i) (get_elem? log'.llm_requested_events i)
  pub tool_calls :
      (i : ℕ)
      → Keeps (get_elem? log.tool_requested_events i) (get_elem? log'.tool_requested_events i)
  pub timers : (i : ℕ) → Keeps (get_elem? log.timer_events i) (get_elem? log'.timer_events i)
  pub signals : (name : String) (i : ℕ) → Keeps (signal_at log name i) (signal_at log' name i)
  pub outcomes : (seq : ℕ) → Keeps (get seq log.outcome) (get seq log'.outcome)
  pub llm_outcomes : (seq : ℕ) → Keeps (get seq log.llm_outcomes) (get seq log'.llm_outcomes)
  pub tool_outcomes : (seq : ℕ) → Keeps (get seq log.tool_outcomes) (get seq log'.tool_outcomes)
  pub fired_timers : (seq : ℕ) → Keeps (get seq log.fired_timers) (get seq log'.fired_timers)

-- A settled promise stays as it is; a pending one may be anything.
abbrev pub Refines : Promise → Promise → Type 0
Refines pending r = Unit
Refines (resolved v) r = r ≡ resolved v
Refines (rejected e) r = r ≡ rejected e

-- The two passes have made as many calls of each kind.
pub record SameCalls (p q : Pass) : Type 0 where
  pub calls : q.call_index ≡ p.call_index
  pub timer_calls : q.timer_call_index ≡ p.timer_call_index
  pub llm_calls : q.llm_call_index ≡ p.llm_call_index
  pub tool_calls : q.tool_call_index ≡ p.tool_call_index
  pub signal_calls : q.signal_call_index ≡ p.signal_call_index

abbrev Agree : Pass × Promise → Pass × Promise → Type 0
Agree a b = SameCalls a.0 b.0 × Refines a.1 b.1

module _ (log log' : Log) (e : Extends log log') (p q : Pass) (same : SameCalls p q) where
  schedule_activity-Agree :
      (type : String) (input : Value)
      → Agree (schedule_activity log type input p) (schedule_activity log' type input q)
  unfolding schedule_activity
  schedule_activity-Agree type input = elim (get_elem?-cases log.scheduled_events p.call_index) [
    | inl (h, past) ↦ rw (h, schedule_activity) (ground arith)
    | inr (x, h, within) ↦
        rw (h, schedule_activity) (ground (arith, e.activities p.call_index, e.outcomes x.0))
  ]

  sleep-Agree : (duration : ℕ) → Agree (sleep log duration p) (sleep log' duration q)
  unfolding sleep
  sleep-Agree duration = elim (get_elem?-cases log.timer_events p.timer_call_index) [
    | inl (h, past) ↦ rw (h, sleep) (ground arith)
    | inr (x, h, within) ↦
        rw (h, sleep) (ground (arith, e.timers p.timer_call_index, e.fired_timers x))
  ]

  llm_call-Agree :
      (hash : String → String) (request : LlmRequest)
      → Agree (llm_call hash log request p) (llm_call hash log' request q)
  unfolding llm_call
  llm_call-Agree hash request = elim (get_elem?-cases log.llm_requested_events p.llm_call_index) [
    | inl (h, past) ↦ rw (h, llm_call) (ground arith)
    | inr (x, h, within) ↦
        rw (h, llm_call) (ground (arith, e.llm_calls p.llm_call_index, e.llm_outcomes x.0))
  ]

  tool_call-Agree :
      (hash : String → String) (name : String) (args : Value)
      → Agree (tool_call hash log name args p) (tool_call hash log' name args q)
  unfolding tool_call
  tool_call-Agree hash name args =
      elim (get_elem?-cases log.tool_requested_events p.tool_call_index) [
        | inl (h, past) ↦ rw (h, tool_call) (ground arith)
        | inr (x, h, within) ↦
            rw (h, tool_call) (ground (arith, e.tool_calls p.tool_call_index, e.tool_outcomes x.0))
      ]

  wait_for_signal-Agree :
      (name : String) → Agree (wait_for_signal log name p) (wait_for_signal log' name q)
  unfolding wait_for_signal
  wait_for_signal-Agree name =
      ground (arith, e.signals name (get_or 0 (get name p.signal_call_index)))

abbrev AgreeInvoked : Invoked → Invoked → Type 0
AgreeInvoked (returned p r) (returned q t) = SameCalls p q × Refines r t
AgreeInvoked (raised a) (raised b) = b ≡ a
AgreeInvoked (returned p r) (raised b) = ⊥
AgreeInvoked (raised a) (returned q t) = ⊥

invoke-Agree :
    (hash : Option (String → String)) (log log' : Log) (c : Call) (p q : Pass)
    → Extends log log'
    → SameCalls p q
    → AgreeInvoked (invoke hash log c p) (invoke hash log' c q)
unfolding invoke
invoke-Agree hash log log' (Call.schedule_activity type input) p q e s =
    schedule_activity-Agree log log' e p q s type input
invoke-Agree hash log log' (Call.sleep duration) p q e s = sleep-Agree log log' e p q s duration
invoke-Agree hash log log' (Call.wait_for_signal name) p q e s =
    wait_for_signal-Agree log log' e p q s name
invoke-Agree (some hash) log log' (Call.llm_call request) p q e s =
    llm_call-Agree log log' e p q s hash request
invoke-Agree (some hash) log log' (Call.tool_call name args) p q e s =
    tool_call-Agree log log' e p q s hash name args
invoke-Agree none log log' (Call.llm_call request) p q e s = refl
invoke-Agree none log log' (Call.tool_call name args) p q e s = refl

-- Promise by promise, over lists of one length.
abbrev RefinesAll : List Promise → List Promise → Type 0
RefinesAll [] [] = Unit
RefinesAll (r ∷ rs) (t ∷ ts) = Refines r t × RefinesAll rs ts
RefinesAll [] (t ∷ ts) = ⊥
RefinesAll (r ∷ rs) [] = ⊥

length-RefinesAll : (rs ts : List Promise) → RefinesAll rs ts → length ts ≡ length rs
length-RefinesAll [] [] h = refl
length-RefinesAll (r ∷ rs) (t ∷ ts) h = omega (arith, length-RefinesAll rs ts h.1)
length-RefinesAll [] (t ∷ ts) h = absurd h
length-RefinesAll (r ∷ rs) [] h = absurd h

append-RefinesAll :
    (rs ts : List Promise) (r t : Promise)
    → RefinesAll rs ts
    → Refines r t
    → RefinesAll (rs ++ r ∷ []) (ts ++ t ∷ [])
append-RefinesAll [] [] r t h hr = (hr, tt)
append-RefinesAll (r' ∷ rs) (t' ∷ ts) r t h hr = (h.0, append-RefinesAll rs ts r t h.1 hr)
append-RefinesAll [] (t' ∷ ts) r t h hr = absurd h
append-RefinesAll (r' ∷ rs) [] r t h hr = absurd h

promise_at-Refines :
    (rs ts : List Promise) (i : ℕ) → RefinesAll rs ts → Refines (promise_at rs i) (promise_at ts i)
promise_at-Refines [] [] i h = tt
promise_at-Refines (r ∷ rs) (t ∷ ts) zero h = h.0
promise_at-Refines (r ∷ rs) (t ∷ ts) (suc i) h = promise_at-Refines rs ts i h.1
promise_at-Refines [] (t ∷ ts) i h = absurd h
promise_at-Refines (r ∷ rs) [] i h = absurd h

abbrev Result : Type 0
Result = Pass × Option Settled

module _ (ps qs : List Promise) (p q : Pass) (all : RefinesAll ps qs) (same : SameCalls p q)
    (s : Settled) (next next' : Called → List Promise → Pass → Result)
    (step : (d : Called) (ps' qs' : List Promise) (p' q' : Pass)
      → RefinesAll ps' qs'
      → SameCalls p' q'
      → (next d ps' p').1 ≡ some s
      → (next' d qs' q').1 ≡ some s) where
  after_call-settled :
      (a b : Invoked)
      → AgreeInvoked a b
      → (after_call ps p next a).1 ≡ some s
      → (after_call qs q next' b).1 ≡ some s
  after_call-settled (returned p' r) (returned q' t) agree h =
      rw (length-RefinesAll ps qs all, after_call)
        (step _ _ _ p' q' (append-RefinesAll ps qs r t all agree.1) agree.0 h)
  after_call-settled (raised a) (raised b) agree h = rw agree (step _ ps qs p q all same h)
  after_call-settled (returned p' r) (raised b) agree h = absurd agree
  after_call-settled (raised a) (returned q' t) agree h = absurd agree

after_await-settled :
    (p q : Pass) (s : Settled) (next next' : Awaited → Result) (r t : Promise)
    → ((a : Awaited) → (next a).1 ≡ some s → (next' a).1 ≡ some s)
    → Refines r t
    → (after_await p next r).1 ≡ some s
    → (after_await q next' t).1 ≡ some s
after_await-settled p q s next next' pending t step agree h = cc
after_await-settled p q s next next' (resolved v) t step agree h = rw agree (step _ h)
after_await-settled p q s next next' (rejected e) t step agree h = rw agree (step _ h)

module _ (hash : Option (String → String)) (log log' : Log) (e : Extends log log')
    (s : Settled) where
  -- What the workflow function returns or throws under a log, it does under each that extends it.
  pub run-settled :
      (prog : Program) (ticks : ℕ) (ps qs : List Promise) (p q : Pass)
      → RefinesAll ps qs
      → SameCalls p q
      → (run hash log prog ticks ps p).1 ≡ some s
      → (run hash log' prog ticks qs q).1 ≡ some s
  unfolding run
  run-settled (returns v) ticks ps qs p q all same h = h
  run-settled (throws x) ticks ps qs p q all same h = h
  run-settled (call c k) ticks ps qs p q all same h =
      after_call-settled ps qs p q all same s (λ d ps' p'. run hash log (k d) ticks ps' p')
        (λ d qs' q'. run hash log' (k d) ticks qs' q') (λ d. run-settled (k d) ticks)
        (invoke hash log c p) (invoke hash log' c q) (invoke-Agree hash log log' c p q e same) h
  run-settled (await i k) zero ps qs p q all same h = cc
  run-settled (await i k) (suc ticks) ps qs p q all same h =
      after_await-settled p q s (λ a. run hash log (k a) ticks ps p)
        (λ a. run hash log' (k a) ticks qs q) (promise_at ps i) (promise_at qs i)
        (λ a. run-settled (k a) ticks ps qs p q all same) (promise_at-Refines ps qs i all) h
