-- ===== src/Queue/CrashLoop.antt =====
-- A task whose worker crashes on every attempt (queue.ts, `dequeue` and `reclaimExpired`).
use karya_kram.Base.{
  ℕ, zero, suc, ◌+◌, ◌*◌, ◌<◌, ◌≡◌, refl, ap, Bool, true, false, [], ◌∷◌, arith, take, select,
}
use karya_kram.Llm.{get_or}
use karya_kram.Queue.Task.{pending, Task, Tasks, update_where}
use karya_kram.Queue.Ops.{
  DequeueInput, dequeue, reclaim_expired, is_candidate, is_expired, has_id, order_by, lease,
  reclaim,
}

abbrev pub unlocked : ℕ → Bool
unlocked i = false

-- The task is leased at `now`, the worker crashes, and the reaper runs after the deadline.
unfoldable pub crash_round : DequeueInput → ℕ → Tasks → Tasks
crash_round input now q =
    let leased = (dequeue input now unlocked q).0 in
    (reclaim_expired 100 (now + input.lease_seconds * 1000 + 1) unlocked leased).0

unfoldable pub crash_rounds : ℕ → DequeueInput → ℕ → Tasks → Tasks
unfolding crash_round
crash_rounds zero input now q = q
crash_rounds (suc n) input now q =
    crash_rounds n input (now + input.lease_seconds * 1000 + 1) (crash_round input now q)

abbrev pub alone : Task → Tasks
alone t = record { rows = t ∷ []; next_id = t.id + 1; notified = [] }

take-nil : (n : ℕ) → take {A = Task} n [] ≡ []
take-nil zero = refl
take-nil (suc n) = refl

-- A condition that the one row passes picks that row.
pub pick_one :
    (n : ℕ) (key : Task → ℕ) (p : Task → Bool) (t : Task)
    → 0 < n
    → p t ≡ true
    → take n (order_by key (select p (t ∷ []))) ≡ t ∷ []
unfolding order_by
pick_one zero key p t h e = elim h [ ]
pick_one (suc n) key p t h e = ground (arith, take-nil n)

pub update_one :
    (i : ℕ) (f : Task → Task) (t : Task)
    → t.id ≡ i
    → update_where (λ u. has_id (t ∷ []) u.id) f (t ∷ []) ≡ f t ∷ []
update_one i f t e = ground arith

pub dequeue-alone :
    (input : DequeueInput) (now : ℕ) (t : Task)
    → 0 < input.limit
    → is_candidate input now unlocked t ≡ true
    → (dequeue input now unlocked (alone t)).0 ≡ alone (lease input now t)
unfolding dequeue
dequeue-alone input now t h e =
    rw (pick_one input.limit (λ u. u.run_after) (is_candidate input now unlocked) t h e)
      (ap (λ rows. record (alone t) { rows = rows }) (update_one t.id (lease input now) t refl))

reclaim_expired-alone :
    (limit now : ℕ) (t : Task)
    → 0 < limit
    → is_expired now unlocked t ≡ true
    → (reclaim_expired limit now unlocked (alone t)).0 ≡ alone (reclaim t)
unfolding reclaim_expired
reclaim_expired-alone limit now t h e =
    rw (pick_one limit (λ u. get_or 0 u.lease_expires_at) (is_expired now unlocked) t h e)
      (ap (λ rows. record (alone t) { rows = rows }) (update_one t.id reclaim t refl))

crash_round_lem :
    (input : DequeueInput) (now : ℕ) (t : Task)
    → 0 < input.limit
    → is_candidate input now unlocked t ≡ true
    → crash_round input now (alone t) ≡ alone (reclaim (lease input now t))
unfolding crash_round
crash_round_lem input now t h e =
    rw (dequeue-alone input now t h e, crash_round)
      (reclaim_expired-alone 100 (now + input.lease_seconds * 1000 + 1) (lease input now t)
        (omega arith) (ground arith))

-- A task alone in the queue that is due for a worker with a positive limit, and whose worker
-- crashes on each of any number of attempts, is pending after them, with its attempts counted and
-- `max_attempts` as it was, however many they are.
pub crash_loop :
    (n : ℕ) (input : DequeueInput) (now : ℕ) (t : Task)
    → 0 < input.limit
    → is_candidate input now unlocked t ≡ true
    → (u : Task) × (crash_rounds n input now (alone t) ≡ alone u)
      × (u.status ≡ pending)
      × (u.attempt ≡ t.attempt + n)
      × (u.max_attempts ≡ t.max_attempts)
unfolding crash_rounds
crash_loop zero input now t h e = (t, refl, ground arith, omega arith, refl)
crash_loop (suc n) input now t h e =
    let later = now + input.lease_seconds * 1000 + 1 in
    let t' = reclaim (lease input now t) in
    let (u, eq, status, attempt, max) = crash_loop n input later t' h (ground arith) in
    (u, rw (crash_round_lem input now t h e) eq, status, omega arith, max)
