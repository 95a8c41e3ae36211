-- ===== src/Loop/Sizes.antt =====
-- The tasks that the polls of a worker may still start (worker.ts).
use karya_kram.Base.{ℕ, ◌+◌, ◌≤◌, ◌≡◌, some, [], ◌∷◌, ◌++◌, arith, length, number_eq}
use karya_kram.Base.Dict.{Dict, get, put, remove}
use karya_kram.Loop.Machine.{Poll, asked, answered}

-- The tasks that a poll may still start.
abbrev pub places : Poll → ℕ
places (asked capacity) = capacity
places (answered tasks) = length tasks

abbrev pub reserved : Dict ℕ Poll → ℕ
reserved [] = 0
reserved ((i, p) ∷ polls) = places p + reserved polls

pub reserved-append : (xs ys : Dict ℕ Poll) → reserved (xs ++ ys) ≡ reserved xs + reserved ys
reserved-append [] ys = omega arith
reserved-append ((i, p) ∷ xs) ys = omega (arith, reserved-append xs ys)

pub reserved-remove-le : (i : ℕ) (polls : Dict ℕ Poll) → reserved (remove i polls) ≤ reserved polls
unfolding remove
reserved-remove-le i [] = omega arith
reserved-remove-le i ((j, p) ∷ polls) = ground (arith, reserved-remove-le i polls)

pub reserved-remove :
    (i : ℕ) (polls : Dict ℕ Poll) (p : Poll)
    → get i polls ≡ some p
    → places p + reserved (remove i polls) ≤ reserved polls
unfolding remove get
reserved-remove i [] p h = cc
reserved-remove i ((j, r) ∷ polls) p h =
    ground (arith, reserved-remove i polls p, reserved-remove-le i polls)

pub reserved-put :
    (i : ℕ) (r : Poll) (polls : Dict ℕ Poll) (p : Poll)
    → get i polls ≡ some p
    → places r ≤ places p
    → reserved (put i r polls) ≤ reserved polls
unfolding put get
reserved-put i r [] p h le = cc
reserved-put i r ((j, s) ∷ polls) p h le = ground (arith, reserved-put i r polls p)
