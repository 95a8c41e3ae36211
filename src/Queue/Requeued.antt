-- ===== src/Queue/Requeued.antt =====
-- The operator's requeue of dlq.ts and the invariant of the `tasks` table.
use karya_kram.Base.{
  ℕ, suc, ◌+◌, ◌≤◌, ◌≡◌, refl, String, Bool, true, false, List, [], ◌∷◌, arith, length, any, All-of,
  All-map, select-none, any-All, any-elim, subst, ap, ◌<◌, eq_iff, Bool-cases, inl, inr, ◌&&◌,
}
use native.Mathlib.Nat.{le_refl}
use karya_kram.Queue.Task.{Task, Tasks, update_where, count_where}
use karya_kram.Queue.Ops.{is_live_workflow_task}
use karya_kram.Queue.DeadLetters.{is_dead_task, requeue, conflicts, requeue_dead_task}
use karya_kram.Queue.Invariant.{
  Inv, Fits, Ascending, Ascending-update_where, All-update_where, count_where-update_where,
}
use karya_kram.Queue.Preserve.{WhenSome}

count-update-le :
    (p r : Task → Bool) (f : Task → Task) (ts : List Task)
    → count_where r (update_where p f ts) ≤ count_where r ts + count_where p ts
count-update-le p r f [] = omega arith
count-update-le p r f (t ∷ ts) = ground (arith, count-update-le p r f ts)

no_id_below :
    (i lo hi : ℕ) (ts : List Task)
    → i < lo
    → Ascending lo ts hi
    → count_where (is_dead_task i) ts ≡ 0
no_id_below i lo hi [] lt h = refl
no_id_below i lo hi (t ∷ ts) lt h =
    let low : i < suc t.id = omega arith in
    ground (arith, no_id_below i (suc t.id) hi ts low h.1, h.0)

one_with_id :
    (i lo hi : ℕ) (ts : List Task) → Ascending lo ts hi → count_where (is_dead_task i) ts ≤ 1
one_with_id i lo hi [] h = omega arith
one_with_id i lo hi (t ∷ ts) h = ground (
  arith,
  one_with_id i (suc t.id) hi ts h.1,
  no_id_below t.id (suc t.id) hi ts (le_refl (suc t.id)) h.1,
)

-- A row that is requeued as a live task of `wf` has no live task of `wf` beside it.
requeued-alone :
    (i now : ℕ) (wf : String) (rows : List Task) (t : Task)
    → (is_dead_task i t && conflicts rows t) ≡ false
    → (is_dead_task i t && is_live_workflow_task wf (requeue now t)) ≡ true
    → any (is_live_workflow_task wf) rows ≡ false
requeued-alone i now wf rows t free live =
    let e : t.workflow_id ≡ wf = ground (arith, eq_iff t.workflow_id wf) in
    subst (λ w. any (is_live_workflow_task w) rows ≡ false) e (ground arith)

requeue-one_workflow_task :
    (i now : ℕ) (wf : String) (q : Tasks)
    → Inv q
    → any (λ t. is_dead_task i t && conflicts q.rows t) q.rows ≡ false
    → count_where (is_live_workflow_task wf) (update_where (is_dead_task i) (requeue now) q.rows)
      ≤ 1
requeue-one_workflow_task i now wf q inv free = elim (Bool-cases (any brings q.rows)) [
  | inl e ↦ omega (
    arith,
    count-update-le (is_dead_task i) (is_live_workflow_task wf) (requeue now) q.rows,
    one_with_id i 0 q.next_id q.rows inv.ids,
    ap length (select-none (is_live_workflow_task wf) q.rows (alone e)),
  )
  | inr e ↦ omega (
    arith,
    inv.one_workflow_task wf,
    count_where-update_where (is_dead_task i) (requeue now) (is_live_workflow_task wf) q.rows
        (All-map (λ t none p live. ground (arith)) q.rows (any-All brings q.rows e)),
  )
]
  where
    brings : Task → Bool
    brings t = is_dead_task i t && is_live_workflow_task wf (requeue now t)

    alone : any brings q.rows ≡ true → any (is_live_workflow_task wf) q.rows ≡ false
    alone e =
        any-elim brings q.rows e
          (All-map (requeued-alone i now wf q.rows) q.rows (any-All _ q.rows free))

pub requeue_dead_task-Inv :
    (i now : ℕ) (q : Tasks) → Inv q → WhenSome (λ r. Inv r.0) (requeue_dead_task i now q)
unfolding requeue_dead_task
requeue_dead_task-Inv i now q inv =
    elim (Bool-cases (any (λ t. is_dead_task i t && conflicts q.rows t) q.rows)) [
      | inl e ↦ rw (e, requeue_dead_task) tt
      | inr e ↦
          rw (e, requeue_dead_task)
            (record {
              ids =
                  Ascending-update_where (is_dead_task i) (requeue now) (λ t. refl) 0 q.next_id
                    q.rows inv.ids;
              leases =
                  All-update_where (is_dead_task i) (requeue now) Fits q.rows inv.leases
                    (All-of (λ t p fits. ground arith) q.rows);
              one_workflow_task = λ wf. requeue-one_workflow_task i now wf q inv e;
            })
    ]
