-- ===== src/Store/Numbered.antt =====
-- The sequence numbers of a workflow's rows (eventStore.ts, lines 58 to 74 and 150 to 154).
use mathlib.Core.List.{map-append}
use karya_kram.Base.{
  ℕ, suc, ◌+◌, ◌≡◌, refl, ap, subst, String, true, false, some, List, [], ◌∷◌, ◌++◌, map, arith,
  leb, ◌==◌, text_eq, length, select, select-append, beq_refl, ◌≢◌, eq_iff,
}
use karya_kram.Workflow.Events.{WorkflowEventPayload, StoredWorkflowEvent}
use karya_kram.Store.Events.{
  EventRow, rows_of, insert_seq, order_by_seq, max_seq, start_seq, number_from,
}

-- One number after the other, from `n` on.
abbrev pub Numbered : ℕ → List StoredWorkflowEvent → Type 0
Numbered n [] = Unit
Numbered n (e ∷ es) = (e.seq ≡ n) × Numbered (suc n) es

pub Numbered-append :
    (n : ℕ) (xs ys : List StoredWorkflowEvent)
    → Numbered n xs
    → Numbered (n + length xs) ys
    → Numbered n (xs ++ ys)
Numbered-append n [] ys h k = subst (λ m. Numbered m ys) (omega arith) k
Numbered-append n (x ∷ xs) ys h k =
    (h.0, Numbered-append (suc n) xs ys h.1 (subst (λ m. Numbered m ys) (omega arith) k))

pub number_from-Numbered : (n : ℕ) (es : List WorkflowEventPayload) → Numbered n (number_from n es)
unfolding number_from
number_from-Numbered n [] = tt
number_from-Numbered n (e ∷ es) = (refl, number_from-Numbered (suc n) es)

max_seq-Numbered :
    (n : ℕ) (e : StoredWorkflowEvent) (es : List StoredWorkflowEvent)
    → Numbered n (e ∷ es)
    → max_seq (e ∷ es) ≡ some (n + length es)
unfolding max_seq
max_seq-Numbered n e [] h = ap some (omega (arith, h.0))
max_seq-Numbered n e (x ∷ es) h =
    rw (max_seq-Numbered (suc n) x es h.1) (ap some (omega (arith, h.0)))

pub start_seq-Numbered :
    (es : List StoredWorkflowEvent) → Numbered 1 es → start_seq (max_seq es) ≡ 1 + length es
unfolding max_seq
start_seq-Numbered [] h = refl
start_seq-Numbered (e ∷ es) h = rw (max_seq-Numbered 1 e es h) (omega arith)

insert_seq-first :
    (n : ℕ) (e : StoredWorkflowEvent) (es : List StoredWorkflowEvent)
    → Numbered n (e ∷ es)
    → insert_seq e es ≡ e ∷ es
unfolding insert_seq
insert_seq-first n e [] h = refl
insert_seq-first n e (x ∷ es) h =
    let first : leb e.seq x.seq ≡ true = ground (arith, h.0, h.1.0) in rw first refl

pub order_by_seq-Numbered :
    (n : ℕ) (es : List StoredWorkflowEvent) → Numbered n es → order_by_seq es ≡ es
unfolding order_by_seq
order_by_seq-Numbered n [] h = refl
order_by_seq-Numbered n (e ∷ es) h =
    rw (order_by_seq-Numbered (suc n) es h.1) (insert_seq-first n e es h)

pub rows_of-append :
    (wf : String) (xs ys : List EventRow) → rows_of wf (xs ++ ys) ≡ rows_of wf xs ++ rows_of wf ys
unfolding rows_of
rows_of-append wf xs ys =
    rw (select-append (λ r. r.workflow_id == wf) xs ys)
      (map-append _ (select (λ r. r.workflow_id == wf) xs) _)

-- The rows inserted for a workflow.
abbrev pub rows_for : String → List StoredWorkflowEvent → List EventRow
rows_for wf es = map (λ e. record { workflow_id = wf; stored = e }) es

pub rows_of-rows_for_self :
    (wf : String) (es : List StoredWorkflowEvent) → rows_of wf (rows_for wf es) ≡ es
unfolding rows_of
rows_of-rows_for_self wf [] = refl
rows_of-rows_for_self wf (e ∷ es) =
    rw (beq_refl wf) (ap (λ rest. e ∷ rest) (rows_of-rows_for_self wf es))

pub rows_of-rows_for_ne :
    (wf other : String) (es : List StoredWorkflowEvent)
    → wf ≢ other
    → rows_of other (rows_for wf es) ≡ []
unfolding rows_of
rows_of-rows_for_ne wf other [] ne = refl
rows_of-rows_for_ne wf other (e ∷ es) ne =
    let differs : (wf == other) ≡ false = ground (arith, eq_iff wf other) in
    rw differs (rows_of-rows_for_ne wf other es ne)
