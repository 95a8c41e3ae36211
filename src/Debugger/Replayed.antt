-- ===== src/Debugger/Replayed.antt =====
-- Which completed steps are shown as replayed (llmView.ts).
use karya_kram.Base.{
  ℕ, ◌≡◌, refl, max, Bool, true, ◌&&◌, ◌||◌, List, [], ◌∷◌, ◌++◌, arith, any, ltb, nat_beq,
  Bool-cases, inl, inr, ◌∙◌, subst,
}
use karya_kram.Workflow.Events.{StoredWorkflowEvent}
use karya_kram.Debugger.View.{
  is_decision, is_completion, last_decision_seq, add_seq, collect, replayed_step_seqs,
}

abbrev pub member : ℕ → List ℕ → Bool
member n ms = any (λ m. nat_beq m n) ms

-- A decision with a later number.
abbrev pub decided_after : ℕ → List StoredWorkflowEvent → Bool
decided_after n events = any (λ d. is_decision d.event && ltb n d.seq) events

last_decision-after :
    (n highest : ℕ) (events : List StoredWorkflowEvent)
    → ltb n (last_decision_seq highest events) ≡ (ltb n highest || decided_after n events)
unfolding last_decision_seq
last_decision-after n highest [] = ground arith
last_decision-after n highest (e ∷ es) = elim (Bool-cases (is_decision e.event)) [
  | inl d ↦ rw d (last_decision-after n (max highest e.seq) es ∙ ground arith)
  | inr d ↦ rw d (last_decision-after n highest es)
]

member-append : (n m : ℕ) (ms : List ℕ) → member n (ms ++ m ∷ []) ≡ (nat_beq m n || member n ms)
member-append n m [] = refl
member-append n m (k ∷ ks) = ground (arith, member-append n m ks)

member-same :
    (n m : ℕ) (ms : List ℕ) → member m ms ≡ true → member n ms ≡ (nat_beq m n || member n ms)
member-same n m ms h = elim (Bool-cases (nat_beq m n)) [
  | inl q ↦ let same : m ≡ n = ground arith in rw q (subst (λ k. member k ms ≡ true) same h)
  | inr q ↦ rw q refl
]

add_seq-member : (n m : ℕ) (ms : List ℕ) → member n (add_seq m ms) ≡ (nat_beq m n || member n ms)
add_seq-member n m ms = elim (Bool-cases (member m ms)) [
  | inl b ↦ rw b (member-same n m ms b)
  | inr b ↦ rw b (member-append n m ms)
]

collect-member :
    (n last : ℕ) (events : List StoredWorkflowEvent) (seen : List ℕ)
    → member n (collect last events seen)
      ≡ (any (λ e. is_completion e.event && nat_beq e.seq n) events && ltb n last || member n seen)
unfolding collect
collect-member n last [] seen = refl
collect-member n last (e ∷ es) seen = elim (Bool-cases (is_completion e.event && ltb e.seq last)) [
  | inl b ↦
      rw b (
        collect-member n last es (add_seq e.seq seen) ∙ ground (arith, add_seq-member n e.seq seen))
  | inr b ↦ rw b (collect-member n last es seen ∙ ground arith)
]

-- A number is among the replayed steps exactly where a completed LLM or tool step has it and some
-- event that workflow code decided has a greater number.
pub replayed-decided :
    (n : ℕ) (events : List StoredWorkflowEvent)
    → member n (replayed_step_seqs events)
      ≡ (any (λ e. is_completion e.event && nat_beq e.seq n) events && decided_after n events)
unfolding replayed_step_seqs
replayed-decided n events =
    collect-member n (last_decision_seq 0 events) events []
    ∙ ground (arith, last_decision-after n 0 events)
