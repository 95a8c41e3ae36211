-- ===== src/Examples/Workflows.antt =====
-- packages/worker-sdk/src/examples: reserveChargeShip.ts, lines 26 to 34, timerWorkflow.ts, lines 15
-- to 23, and supportTriage.ts, lines 32 to 86. A property of null or undefined throws; one of another
-- value that is not an object is undefined. The text of an array is taken as empty, and a duration is
-- a natural number.
use Prim.Native.Char.{code}
use Prim.Native.String.{◌++◌ as ◌+s+◌}
use karya_kram.Base.{ℕ, String, true, false, none, some, [], ◌∷◌, nat_beq, if◌then◌else◌}
use karya_kram.Base.Words.{trim, parse_int}
use karya_kram.Json.{Value, undefined, null, bool, num, str, arr, obj, end, field}
use karya_kram.Llm.{LlmRole, LlmRequest, get_or}
use karya_kram.Providers.Mock.{get_field}
use karya_kram.Replay.Program.{
  Call, Called, promise, thrown, Resolved, value, llm_result, Awaited, fulfilled, failed, Program,
  returns, throws, call, await, WorkflowFn,
}

unfoldable pub property : String → Value → Value
unfolding get_field
property k (obj fs) = get_or undefined (get_field k fs)
property k _ = undefined

-- The error of `v.k` where `v` is null or undefined.
abbrev pub cannot_read : String → String → String
cannot_read v k = "Cannot read properties of " +s+ v +s+ " (reading '" +s+ k +s+ "')"

-- `v.k`, and then the rest of the function.
abbrev pub reading : String → Value → (Value → Program) → Program
reading k undefined rest = throws (cannot_read "undefined" k)
reading k null rest = throws (cannot_read "null" k)
reading k v rest = rest (property k v)

abbrev text_of : Value → String
text_of (str s) = s
text_of (num n) = n
text_of (bool true) = "true"
text_of (bool false) = "false"
text_of (obj fs) = "[object Object]"
text_of (arr xs) = ""
text_of undefined = "undefined"
text_of null = "null"

unfoldable pub number_of : Value → ℕ
unfolding parse_int
number_of (num n) = get_or 0 (parse_int n)
number_of _ = 0

-- `await ctx.method(…)`: what the call throws, and what its promise is rejected with, is thrown.
abbrev after_await : (Resolved → Program) → Awaited → Program
after_await k (fulfilled r) = k r
after_await k (failed error) = throws error

abbrev after_call : (Resolved → Program) → Called → Program
after_call k (promise i) = await i (after_await k)
after_call k (thrown error) = throws error

abbrev awaiting : Call → (Resolved → Program) → Program
awaiting c k = call c (after_call k)

abbrev value_of : Resolved → Value
value_of (value v) = v
value_of _ = undefined

abbrev response_of : Resolved → String
response_of (llm_result r) = r.text
response_of _ = "undefined"

abbrev pub order_result : Value → Value → Value
order_result order_id shipped =
    obj (field "orderId" order_id (field "status" (str "done") (field "shipped" shipped end)))

abbrev pub reserve_charge_ship : WorkflowFn
reserve_charge_ship input = awaiting (Call.schedule_activity "reserve" input) (λ reserved.
    awaiting (Call.schedule_activity "charge" (value_of reserved)) (λ charged.
      awaiting (Call.schedule_activity "ship" (value_of charged)) (λ shipped.
        reading "orderId" input (λ order_id. returns (order_result order_id (value_of shipped))))))

abbrev pub timer_workflow : WorkflowFn
timer_workflow input = awaiting (Call.schedule_activity "before-timer" input) (λ before.
    reading "sleepMs" input (λ ms. awaiting (Call.sleep (number_of ms)) (λ slept.
      awaiting (Call.schedule_activity "after-timer" input)
        (λ after. returns (obj (field "done" (bool true) end))))))

unfoldable pub first_line : String → String
first_line String.[] = ""
first_line (String.◌∷◌ c s) =
    let rest = first_line s in if nat_beq (code c) 10 then "" else String.◌∷◌ c rest

abbrev asks : String → String → String → LlmRequest
asks system user max_tokens = record {
  model = "default";
  messages =
      record { role = LlmRole.system; content = system }
      ∷ record { role = LlmRole.user; content = user }
      ∷ [];
  params = some (field "maxTokens" (num max_tokens) end);
  tools = none;
}

abbrev ticket_text : Value → String
ticket_text input =
    text_of (property "subject" input) +s+ "\n\n" +s+ text_of (property "body" input)

abbrev classify_request : Value → LlmRequest
classify_request input =
    asks
      "You triage customer support tickets. Reply with exactly one category: billing, technical, account or other."
      ("Subject: " +s+ ticket_text input) "16"

abbrev draft_request : Value → Value → String → LlmRequest
draft_request input customer category =
    asks "You write short, polite support replies. Do not promise refunds."
      ("Customer: "
        +s+ text_of (property "name" customer)
        +s+ " ("
        +s+ text_of (property "plan" customer)
        +s+ " plan)\nCategory: "
        +s+ category
        +s+ "\nTicket: "
        +s+ ticket_text input
        +s+ "\n\nWrite the reply.")
      "400"

abbrev triage_result : Value → String → Value → String → Value → Value
triage_result input category customer reply sent = obj (
    field "ticketId" (property "ticketId" input) (
      field "category" (str category) (
        field "customerName" (property "name" customer) (
          field "plan" (property "plan" customer)
            (field "reply" (str reply) (field "messageId" (property "messageId" sent) end))))))

-- The three reads that can throw are those of the input, of the customer and of what was sent; later
-- ones read a value that is neither null nor undefined.
unfoldable pub support_ticket_triage : WorkflowFn
unfolding first_line trim
support_ticket_triage input = reading "subject" input (λ subject.
    awaiting (Call.llm_call (classify_request input)) (λ classification.
      let category = first_line (trim (response_of classification)) in
      awaiting
        (Call.tool_call "lookup_customer"
          (obj (field "customerId" (property "customerId" input) end)))
        (λ found.
          let customer = value_of found in
          reading "name" customer (λ name.
            awaiting (Call.llm_call (draft_request input customer category)) (λ draft.
              awaiting
                (Call.tool_call "send_reply" (
                  obj (
                    field "ticketId" (property "ticketId" input) (
                      field "to" (property "email" customer)
                        (field "body" (str (response_of draft)) end)))))
                (λ sent. reading "messageId" (value_of sent) (λ message_id.
                  returns (
                    triage_result input category customer (response_of draft)
                      (value_of sent)))))))))
