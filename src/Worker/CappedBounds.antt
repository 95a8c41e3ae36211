-- ===== src/Worker/CappedBounds.antt =====
-- The size of a capped response (llmConfig.ts, lines 90 to 100 and 164 to 183).
use karya_kram.Base.{
  ℕ, ◌+◌, ◌-◌, ◌≤◌, ◌≡◌, refl, String, Bool, true, List, [], ◌∷◌, arith, leb, leb→le, Bool-cases,
  inl, inr,
}
use karya_kram.Llm.{LlmToolCall}
use karya_kram.Worker.Capped.{
  char_bytes, byte_length, prefix_within, truncate_utf8, call_size, cap_calls, cap_response,
}

abbrev pub calls_size : List LlmToolCall → ℕ
calls_size [] = 0
calls_size (c ∷ cs) = call_size c + calls_size cs

prefix_within-bound : (s : String) (n : ℕ) → byte_length (prefix_within s n) ≤ n
unfolding prefix_within byte_length
prefix_within-bound String.[] n = omega arith
prefix_within-bound (String.◌∷◌ c s) n = elim (Bool-cases (leb (char_bytes c) n)) [
  | inl e ↦
      rw e (omega (arith, prefix_within-bound s (n - char_bytes c), leb→le (char_bytes c) n e))
  | inr e ↦ rw e (omega arith)
]

pub truncate_utf8-bound : (s : String) (n : ℕ) → byte_length (truncate_utf8 s n).text ≤ n
unfolding truncate_utf8
truncate_utf8-bound s n = ground (arith, prefix_within-bound s n)

cap_calls-bound :
    (text : String) (b : Bool) (n : ℕ) (cs : List LlmToolCall)
    → ((cap_calls text b n cs).text ≡ text) × (calls_size (cap_calls text b n cs).tool_calls ≤ n)
unfolding cap_calls
cap_calls-bound text b n [] = (refl, omega arith)
cap_calls-bound text b n (c ∷ cs) =
    ground (arith, cap_calls-bound text b (n - call_size c) cs, cap_calls-bound text true n cs)

-- The bytes of a capped response's text and of the tool calls kept in it are together at most the
-- cap, for every text, tool calls and cap.
pub cap_response-bound :
    (text : String) (calls : List LlmToolCall) (n : ℕ)
    → byte_length (cap_response text calls n).text
        + calls_size (cap_response text calls n).tool_calls
      ≤ n
unfolding cap_response
cap_response-bound text calls n =
    let cut = truncate_utf8 text n in
    let kept = cap_calls-bound cut.text cut.truncated (n - byte_length cut.text) calls in
    rw kept.0 (omega (arith, kept.1, truncate_utf8-bound text n))
