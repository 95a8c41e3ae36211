-- ===== src/Queue/Dispatch.antt =====
-- What `dequeue` hands out (queue.ts).
use native.Mathlib.Nat.{le_refl}
use karya_kram.Base.{
  ℕ, suc, ◌+◌, ◌≤◌, ◌<◌, ◌≡◌, refl, ap, Bool, true, false, ◌||◌, List, [], ◌∷◌, map, arith, nat_beq,
  length, select, any, All, All-map, All-map₂, length-take-le, beq_refl, text_eq, Bool-cases, inl,
  inr,
}
use karya_kram.Queue.Task.{is_leased, Task, Tasks, update_where, count_where}
use karya_kram.Queue.Ops.{
  DequeueInput, LeaseFence, is_fenced, is_lease_owned, is_candidate, lease, has_id, candidates,
  order_by, dequeue,
}
use karya_kram.Queue.Invariant.{Inv, Ascending, Ascending-above}
use karya_kram.Queue.Chosen.{picked-passes}

none_below :
    (i lo hi : ℕ) (ts : List Task)
    → i < lo
    → Ascending lo ts hi
    → count_where (λ t. nat_beq i t.id) ts ≡ 0
none_below i lo hi [] lt h = refl
none_below i lo hi (t ∷ ts) lt h =
    let low : i < suc t.id = omega arith in
    ground (arith, none_below i (suc t.id) hi ts low h.1, h.0)

at_most_one :
    (i lo hi : ℕ) (ts : List Task) → Ascending lo ts hi → count_where (λ t. nat_beq i t.id) ts ≤ 1
at_most_one i lo hi [] h = omega arith
at_most_one i lo hi (t ∷ ts) h = ground (
  arith,
  at_most_one i (suc t.id) hi ts h.1,
  none_below t.id (suc t.id) hi ts (le_refl (suc t.id)) h.1,
)

count-or :
    (p r : Task → Bool) (ts : List Task)
    → count_where (λ t. p t || r t) ts ≤ count_where p ts + count_where r ts
count-or p r [] = omega arith
count-or p r (t ∷ ts) = ground (arith, count-or p r ts)

-- No more rows are picked by id than ids are listed.
count-has_id :
    (xs : List Task) (lo hi : ℕ) (ts : List Task)
    → Ascending lo ts hi
    → count_where (λ t. has_id xs t.id) ts ≤ length xs
count-has_id [] lo hi ts h = none_pass ts
  where
    none_pass : (us : List Task) → count_where (λ t. has_id [] t.id) us ≤ 0
    none_pass [] = omega arith
    none_pass (u ∷ us) = none_pass us
count-has_id (x ∷ xs) lo hi ts h = omega (
  arith,
  count-or (λ t. nat_beq x.id t.id) (λ t. has_id xs t.id) ts,
  at_most_one x.id lo hi ts h,
  count-has_id xs lo hi ts h,
)

length-map {ℓ κ} :
    {A : Type ℓ} {B : Type κ} (f : A → B) (xs : List A) → length (map f xs) ≡ length xs
length-map f [] = refl
length-map f (x ∷ xs) = ap suc (length-map f xs)

-- What holds of the rows that pass a test, mapped.
All-map-select :
    (P : Task → Type 0) (f : Task → Task) (p : Task → Bool) (ts : List Task)
    → All (λ t. p t ≡ true → P (f t)) ts
    → All P (map f (select p ts))
All-map-select P f p [] h = tt
All-map-select P f p (t ∷ ts) h = elim (Bool-cases (p t)) [
  | inl e ↦ rw e (h.0 e, All-map-select P f p ts h.1)
  | inr e ↦ rw e (All-map-select P f p ts h.1)
]

abbrev pub fence_of_row : DequeueInput → Task → LeaseFence
fence_of_row input t = record { task_id = t.id; worker_id = input.worker_id; attempt = t.attempt }

fenced_below :
    (f : LeaseFence) (lo hi : ℕ) (ts : List Task)
    → f.task_id < lo
    → Ascending lo ts hi
    → any (is_fenced f) ts ≡ false
fenced_below f lo hi [] lt h = refl
fenced_below f lo hi (t ∷ ts) lt h =
    let low : f.task_id < suc t.id = omega arith in
    ground (arith, fenced_below f (suc t.id) hi ts low h.1, h.0)

-- Nobody owns a row that is not leased, since ids are distinct.
not_leased-unowned :
    (lo hi : ℕ) (ts : List Task)
    → Ascending lo ts hi
    → All
        (λ t.
          is_leased t.status ≡ false
          → (f : LeaseFence) → f.task_id ≡ t.id
          → any (is_fenced f) ts ≡ false)
        ts
not_leased-unowned lo hi [] h = tt
not_leased-unowned lo hi (t ∷ ts) h = (
  (λ free f e.
      let low : f.task_id < suc t.id = omega arith in
      ground (arith, fenced_below f (suc t.id) hi ts low h.1)),
  All-map₂ (λ u ih above free f e. ground (arith, ih free f e)) ts
      (not_leased-unowned (suc t.id) hi ts h.1)
      (Ascending-above (suc t.id) (suc t.id) hi ts (le_refl (suc t.id)) h.1),
)

lease-fenced :
    (input : DequeueInput) (now : ℕ) (t : Task)
    → is_fenced (fence_of_row input (lease input now t)) (lease input now t) ≡ true
lease-fenced input now t = ground (arith, beq_refl input.worker_id)

-- Each row that is leased is owned by its new fence.
leased-owned :
    (input : DequeueInput) (now : ℕ) (p : Task → Bool) (ts : List Task)
    → All
        (λ t.
          p t ≡ true
          → any
              (is_fenced (fence_of_row input (lease input now t)))
              (update_where p (lease input now) ts)
            ≡ true)
        ts
leased-owned input now p [] = tt
leased-owned input now p (t ∷ ts) = (
  (λ e. ground (arith, lease-fenced input now t)),
  All-map (λ u ih e. ground (arith, ih e)) ts (leased-owned input now p ts),
)

due-not_leased :
    (input : DequeueInput) (now : ℕ) (locked : ℕ → Bool) (t : Task)
    → is_candidate input now locked t ≡ true
    → is_leased t.status ≡ false
due-not_leased input now locked t e = ground arith

-- A task as `dequeue` returns it: a due task of the queue and type, that nobody owned, and that the
-- worker now owns under its new attempt.
pub record Granted (input : DequeueInput) (now : ℕ) (locked : ℕ → Bool) (q q' : Tasks) (r : Task)
    : Type 0 where
  pub row : Task
  pub was_due : is_candidate input now locked row ≡ true
  pub is_row : r ≡ lease input now row
  pub unowned : (f : LeaseFence) → f.task_id ≡ r.id → is_lease_owned f q ≡ false
  pub owned : is_lease_owned (fence_of_row input r) q' ≡ true

grant :
    (input : DequeueInput) (now : ℕ) (locked : ℕ → Bool) (q : Tasks) (t : Task)
    → (has_id (candidates input now locked q.rows) t.id ≡ true
        → is_candidate input now locked t ≡ true)
    → (is_leased t.status ≡ false
        → (f : LeaseFence) → f.task_id ≡ t.id
        → any (is_fenced f) q.rows ≡ false)
    → (has_id (candidates input now locked q.rows) t.id ≡ true
        → any
            (is_fenced (fence_of_row input (lease input now t)))
            (dequeue input now locked q).0.rows
          ≡ true)
    → has_id (candidates input now locked q.rows) t.id ≡ true
    → Granted input now locked q (dequeue input now locked q).0 (lease input now t)
unfolding is_lease_owned
grant input now locked q t due free owned e = record {
  row = t;
  was_due = due e;
  is_row = refl;
  unowned = free (due-not_leased input now locked t (due e));
  owned = owned e;
}

pub dequeue-Granted :
    (input : DequeueInput) (now : ℕ) (locked : ℕ → Bool) (q : Tasks)
    → Inv q
    → (length (dequeue input now locked q).1 ≤ input.limit)
      × All
          (Granted input now locked q (dequeue input now locked q).0)
          (dequeue input now locked q).1
unfolding dequeue is_lease_owned
dequeue-Granted input now locked q inv =
    let chosen = candidates input now locked q.rows in
    (
      omega (
        arith,
        length-map (lease input now) (select (λ t. has_id chosen t.id) q.rows),
        count-has_id chosen 0 q.next_id q.rows inv.ids,
        length-take-le input.limit
            (order_by (λ t. t.run_after) (select (is_candidate input now locked) q.rows)),
      ),
      All-map-select (Granted input now locked q (dequeue input now locked q).0) (lease input now)
          (λ t. has_id chosen t.id) q.rows
          (All-map₂ (λ t grants owned. grants owned) q.rows
            (All-map₂ (grant input now locked q) q.rows
              (picked-passes input.limit (λ t. t.run_after) (is_candidate input now locked) 0
                q.next_id q.rows inv.ids)
              (not_leased-unowned 0 q.next_id q.rows inv.ids))
            (leased-owned input now (λ t. has_id chosen t.id) q.rows)),
    )
