-- ===== src/Debugger/Merged.antt =====
-- The browser's events are in order and without repetition (useWorkflowEvents.ts).
use karya_kram.Base.{
  ℕ, ◌<◌, ◌≡◌, refl, true, false, ◌||◌, List, [], ◌∷◌, ◌++◌, arith, All, All-map, nat_beq, leb,
  Bool-cases, inl, inr, subst, ◌∙◌,
}
use karya_kram.Workflow.Events.{StoredWorkflowEvent}
use karya_kram.Store.Events.{insert_seq, order_by_seq}
use karya_kram.Debugger.Stream.{has_seq, receive, receive_all}

-- The numbers go up strictly, from above `low`.
abbrev pub Increasing : List StoredWorkflowEvent → Type 0
Increasing [] = Unit
Increasing (e ∷ es) = All (λ f. e.seq < f.seq) es × Increasing es

has_seq-insert :
    (n : ℕ) (e : StoredWorkflowEvent) (es : List StoredWorkflowEvent)
    → has_seq n (insert_seq e es) ≡ (nat_beq e.seq n || has_seq n es)
unfolding insert_seq
has_seq-insert n e [] = refl
has_seq-insert n e (x ∷ xs) = ground (arith, has_seq-insert n e xs)

has_seq-order : (n : ℕ) (es : List StoredWorkflowEvent) → has_seq n (order_by_seq es) ≡ has_seq n es
unfolding order_by_seq
has_seq-order n [] = refl
has_seq-order n (e ∷ es) = rw (has_seq-insert n e (order_by_seq es), has_seq-order n es) refl

All-insert :
    (m : ℕ) (e : StoredWorkflowEvent) (es : List StoredWorkflowEvent)
    → m < e.seq
    → All (λ f. m < f.seq) es
    → All (λ f. m < f.seq) (insert_seq e es)
unfolding insert_seq
All-insert m e [] lt h = (lt, tt)
All-insert m e (x ∷ xs) lt h = elim (Bool-cases (leb e.seq x.seq)) [
  | inl b ↦ rw b (lt, h)
  | inr b ↦ rw b (h.0, All-insert m e xs lt h.1)
]

insert-Increasing :
    (e : StoredWorkflowEvent) (es : List StoredWorkflowEvent)
    → has_seq e.seq es ≡ false
    → Increasing es
    → Increasing (insert_seq e es)
unfolding insert_seq
insert-Increasing e [] fresh h = (tt, tt)
insert-Increasing e (x ∷ xs) fresh h = elim (Bool-cases (leb e.seq x.seq)) [
  | inl b ↦
      let lt : e.seq < x.seq = ground (arith, fresh) in
      rw b ((lt, All-map (λ f above. omega (arith, above, lt)) xs h.0), h)
  | inr b ↦
      let gt : x.seq < e.seq = ground (arith, fresh) in
      let rest : has_seq e.seq xs ≡ false = ground (arith, fresh) in
      rw b (All-insert x.seq e xs gt h.0, insert-Increasing e xs rest h.1)
]

above-fresh :
    (n : ℕ) (es : List StoredWorkflowEvent) → All (λ f. n < f.seq) es → has_seq n es ≡ false
above-fresh n [] h = refl
above-fresh n (f ∷ fs) h = ground (arith, above-fresh n fs h.1, h.0)

has_seq-append :
    (n : ℕ) (e : StoredWorkflowEvent) (es : List StoredWorkflowEvent)
    → has_seq n (es ++ e ∷ []) ≡ (nat_beq e.seq n || has_seq n es)
has_seq-append n e [] = refl
has_seq-append n e (x ∷ xs) = ground (arith, has_seq-append n e xs)

has_seq-same :
    (n m : ℕ) (view : List StoredWorkflowEvent)
    → has_seq m view ≡ true
    → has_seq n view ≡ (nat_beq m n || has_seq n view)
has_seq-same n m view h = elim (Bool-cases (nat_beq m n)) [
  | inl q ↦ let same : m ≡ n = ground arith in rw q (subst (λ k. has_seq k view ≡ true) same h)
  | inr q ↦ rw q refl
]

-- Sorting what is sorted already, with one event at its end.
order-append :
    (e : StoredWorkflowEvent) (es : List StoredWorkflowEvent)
    → has_seq e.seq es ≡ false
    → Increasing es
    → Increasing (order_by_seq (es ++ e ∷ []))
unfolding order_by_seq insert_seq
order-append e [] fresh h = (tt, tt)
order-append e (x ∷ xs) fresh h =
    insert-Increasing x (order_by_seq (xs ++ e ∷ []))
      (has_seq-order x.seq (xs ++ e ∷ [])
        ∙ has_seq-append x.seq e xs
        ∙ ground (arith, fresh, above-fresh x.seq xs h.0))
      (order-append e xs (ground (arith, fresh)) h.1)

receive-Increasing :
    (e : StoredWorkflowEvent) (view : List StoredWorkflowEvent)
    → Increasing view
    → Increasing (receive e view)
unfolding receive
receive-Increasing e view h = elim (Bool-cases (has_seq e.seq view)) [
  | inl b ↦ rw b h
  | inr b ↦ rw b (order-append e view b h)
]

receive-has_seq :
    (n : ℕ) (e : StoredWorkflowEvent) (view : List StoredWorkflowEvent)
    → has_seq n (receive e view) ≡ (nat_beq e.seq n || has_seq n view)
unfolding receive
receive-has_seq n e view = elim (Bool-cases (has_seq e.seq view)) [
  | inl b ↦ rw b (has_seq-same n e.seq view b)
  | inr b ↦ rw b (has_seq-order n (view ++ e ∷ []) ∙ has_seq-append n e view)
]

-- From events whose numbers go up, whatever events the stream delivers, in any order and with
-- repetitions, the browser holds events whose numbers go up strictly, and holds a number exactly
-- where it was held before or delivered.
pub receive_all-Increasing :
    (es view : List StoredWorkflowEvent)
    → Increasing view
    → Increasing (receive_all es view)
      × ((n : ℕ) → has_seq n (receive_all es view) ≡ (has_seq n es || has_seq n view))
unfolding receive_all
receive_all-Increasing [] view h = (h, λ n. refl)
receive_all-Increasing (e ∷ es) view h =
    let rest = receive_all-Increasing es (receive e view) (receive-Increasing e view h) in
    (rest.0, λ n. ground (arith, rest.1 n, receive-has_seq n e view))
