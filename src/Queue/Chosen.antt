-- ===== src/Queue/Chosen.antt =====
-- The rows that a query picks by id, after its WHERE, ORDER BY and LIMIT.
use karya_kram.Base.{
  ℕ, zero, suc, ◌≤◌, ◌<◌, ◌≡◌, refl, Bool, true, false, ◌||◌, List, [], ◌∷◌, arith, nat_beq, select,
  take, All, All-map, All-map₂,
}
use karya_kram.Queue.Task.{Task}
use karya_kram.Queue.Ops.{has_id, insert_by, order_by}
use karya_kram.Queue.Invariant.{Ascending, Ascending-above}

has_id-take : (n : ℕ) (ts : List Task) (i : ℕ) → has_id (take n ts) i ≡ true → has_id ts i ≡ true
has_id-take zero ts i h = cc
has_id-take (suc n) [] i h = cc
has_id-take (suc n) (t ∷ ts) i h = ground (arith, has_id-take n ts i)

has_id-insert_by :
    (key : Task → ℕ) (t : Task) (us : List Task) (i : ℕ)
    → has_id (insert_by key t us) i ≡ (nat_beq t.id i || has_id us i)
unfolding insert_by
has_id-insert_by key t [] i = refl
has_id-insert_by key t (u ∷ us) i = ground (arith, has_id-insert_by key t us i)

has_id-order_by :
    (key : Task → ℕ) (ts : List Task) (i : ℕ) → has_id (order_by key ts) i ≡ has_id ts i
unfolding order_by
has_id-order_by key [] i = refl
has_id-order_by key (t ∷ ts) i =
    ground (arith, has_id-insert_by key t (order_by key ts) i, has_id-order_by key ts i)

has_id-select_above :
    (p : Task → Bool) (lo hi i : ℕ) (ts : List Task)
    → i < lo
    → Ascending lo ts hi
    → has_id (select p ts) i ≡ false
has_id-select_above p lo hi i [] lt h = refl
has_id-select_above p lo hi i (t ∷ ts) lt h =
    let low : i < suc t.id = omega arith in
    let above : lo ≤ t.id = h.0 in ground (arith, has_id-select_above p (suc t.id) hi i ts low h.1)

-- Ids are distinct, so an id that is picked is the id of a row that passes.
has_id-select :
    (p : Task → Bool) (lo hi : ℕ) (ts : List Task)
    → Ascending lo ts hi
    → All (λ t. has_id (select p ts) t.id ≡ true → p t ≡ true) ts
has_id-select p lo hi [] h = tt
has_id-select p lo hi (t ∷ ts) h = (
  (let low : t.id < suc t.id = omega arith in
      ground (arith, has_id-select_above p (suc t.id) hi t.id ts low h.1)),
  All-map₂ later ts (has_id-select p (suc t.id) hi ts h.1)
      (Ascending-above (suc t.id) (suc t.id) hi ts (omega arith) h.1),
)
  where
    later :
        (u : Task)
        → (has_id (select p ts) u.id ≡ true → p u ≡ true)
        → (suc t.id ≤ u.id) × (u.id < hi)
        → has_id (select p (t ∷ ts)) u.id ≡ true
        → p u ≡ true
    later u ih above e = ground (arith, ih)

-- A row whose id is picked, up to the limit, passes the condition.
pub picked-passes :
    (n : ℕ) (key : Task → ℕ) (p : Task → Bool) (lo hi : ℕ) (ts : List Task)
    → Ascending lo ts hi
    → All (λ t. has_id (take n (order_by key (select p ts))) t.id ≡ true → p t ≡ true) ts
picked-passes n key p lo hi ts h = All-map pick ts (has_id-select p lo hi ts h)
  where
    pick :
        (t : Task)
        → (has_id (select p ts) t.id ≡ true → p t ≡ true)
        → has_id (take n (order_by key (select p ts))) t.id ≡ true
        → p t ≡ true
    pick t ih e = ih (rw has_id-order_by at (has_id-take n (order_by key (select p ts)) t.id e))
