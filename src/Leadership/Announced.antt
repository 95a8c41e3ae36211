-- ===== src/Leadership/Announced.antt =====
-- What each stretch of the election announces (leaderElection.ts).
use karya_kram.Base.{
  ℕ, ◌≡◌, refl, Bool, true, false, Option, none, some, Bool-cases, inl, inr, number_eq, is_some_of,
}
use karya_kram.Leadership.Election.{
  Attempt, trying, recording, Election, Notice, quiet, acquired, lost, connect, attempt_acquire,
  connected, connect_failed, schedule_reconnect, lock_answered, leadership_recorded,
  handle_disconnect, stop, closed, has_client,
}
use karya_kram.Leadership.Events.{
  poll_fired, reconnect_fired, connect_ended, connect_refused, answered, recorded,
}

-- What a stretch of the election does, by the callback it ends in.
unfoldable pub Announced : Election → Election × Notice → Type 0
Announced e (e', quiet) =
    e'.leader ≡ false → e'.closing ≡ false → (e.leader ≡ false) × (e.closing ≡ false)
Announced e (e', acquired) = e'.leader ≡ true
Announced e (e', lost) = Unit

pub record Sound (e : Election) (r : Election × Notice) : Type 0 where
  pub says : Announced e r
  pub retires : r.0.stopped ≡ true → (r.0.leader ≡ false) × (has_client r.0.client ≡ false)

abbrev pub Retired : Election → Type 0
Retired e = e.stopped ≡ true → (e.leader ≡ false) × (has_client e.client ≡ false)

pub connect_ended-Sound :
    (i : ℕ) (o : Option ℕ) (e : Election) → Retired e → Sound e (connect_ended i o e, quiet)
unfolding connect_ended connected attempt_acquire Announced
connect_ended-Sound i none e h = record { says = λ a b. (a, b); retires = h }
connect_ended-Sound i (some c) e h = elim (Bool-cases e.stopped) [
  | inl s ↦ simp s (record { says = λ a b. (a, b); retires = λ _. h s })
  | inr s ↦ simp s (record { says = λ a b. (a, b); retires = λ f. absurd cc })
]

pub connect_refused-Sound :
    (i : ℕ) (o : Option ℕ) (e : Election) → Retired e → Sound e (connect_refused i o e, quiet)
unfolding connect_refused connect_failed schedule_reconnect Announced
connect_refused-Sound i none e h = record { says = λ a b. (a, b); retires = h }
connect_refused-Sound i (some c) e h = elim (Bool-cases e.stopped) [
  | inl s ↦ simp s (record { says = λ a b. (a, b); retires = λ _. h s })
  | inr s ↦ simp s (record { says = λ a b. (a, b); retires = λ f. absurd cc })
]

pub answered-Sound :
    (i : ℕ) (granted : Bool) (o : Option Attempt) (e : Election)
    → Retired e
    → Sound e (answered i granted o e, quiet)
unfolding answered lock_answered Announced
answered-Sound i granted none e h = record { says = λ a b. (a, b); retires = h }
answered-Sound i granted (some recording) e h = record { says = λ a b. (a, b); retires = h }
answered-Sound i true (some trying) e h = elim (Bool-cases e.stopped) [
  | inl s ↦ simp s (record { says = λ a b. (a, b); retires = λ _. h s })
  | inr s ↦ simp s (record { says = λ a b. (a, b); retires = λ f. absurd cc })
]
answered-Sound i false (some trying) e h = elim (Bool-cases e.stopped) [
  | inl s ↦ simp s (record { says = λ a b. (a, b); retires = λ _. h s })
  | inr s ↦ simp s (record { says = λ a b. (a, b); retires = λ f. absurd cc })
]

pub recorded-Sound :
    (i : ℕ) (o : Option Attempt) (e : Election) → Retired e → Sound e (recorded i o e)
unfolding recorded leadership_recorded Announced
recorded-Sound i none e h = record { says = λ a b. (a, b); retires = h }
recorded-Sound i (some trying) e h = record { says = λ a b. (a, b); retires = h }
recorded-Sound i (some recording) e h = elim (Bool-cases e.stopped) [
  | inl s ↦ simp s (record { says = λ a b. (a, b); retires = λ _. h s })
  | inr s ↦ simp s (record { says = refl; retires = λ f. absurd cc })
]

pub disconnected-Sound : (c : ℕ) (e : Election) → Retired e → Sound e (handle_disconnect c e)
unfolding handle_disconnect schedule_reconnect Announced
disconnected-Sound c e h = elim (Bool-cases (is_some_of c e.client)) [
  | inr o ↦ rw o (record { says = λ a b. (a, b); retires = h })
  | inl o ↦ rw o (elim (Bool-cases e.stopped) [
    | inl s ↦
        let out = (h s).0 in
        simp (s, out) (record { says = λ a b. (out, b); retires = λ _. (refl, refl) })
    | inr s ↦ elim (Bool-cases e.leader) [
      | inl l ↦ simp (s, l) (record { says = tt; retires = λ f. absurd cc })
      | inr l ↦ simp (s, l) (record { says = λ a b. (l, b); retires = λ f. absurd cc })
    ]
  ])
]

pub poll_fired-Sound :
    (i : ℕ) (o : Option ℕ) (e : Election) → Retired e → Sound e (poll_fired i o e, quiet)
unfolding poll_fired attempt_acquire Announced
poll_fired-Sound i none e h = record { says = λ a b. (a, b); retires = h }
poll_fired-Sound i (some d) e h = elim (Bool-cases e.stopped) [
  | inl s ↦ simp s (record { says = λ a b. (a, b); retires = λ _. h s })
  | inr s ↦ elim (Bool-cases (has_client e.client)) [
    | inl c ↦ simp (s, c) (record { says = λ a b. (a, b); retires = λ f. absurd cc })
    | inr c ↦ simp (s, c) (record { says = λ a b. (a, b); retires = λ f. absurd cc })
  ]
]

pub reconnect_fired-Sound :
    (i : ℕ) (o : Option ℕ) (e : Election) → Retired e → Sound e (reconnect_fired i o e, quiet)
unfolding reconnect_fired connect Announced
reconnect_fired-Sound i none e h = record { says = λ a b. (a, b); retires = h }
reconnect_fired-Sound i (some d) e h = elim (Bool-cases e.stopped) [
  | inl s ↦ simp s (record { says = λ a b. (a, b); retires = λ _. h s })
  | inr s ↦ simp s (record { says = λ a b. (a, b); retires = λ f. absurd cc })
]

pub stop-Sound : (e : Election) → Retired e → Sound e (stop e)
unfolding stop Announced
stop-Sound e h = elim (Bool-cases (has_client e.client)) [
  | inl c ↦ elim (Bool-cases e.leader) [
    | inl l ↦ simp (c, l) (record { says = λ a b. absurd cc; retires = λ _. (refl, refl) })
    | inr l ↦ simp (c, l) (record { says = λ a b. (l, b); retires = λ _. (refl, refl) })
  ]
  | inr c ↦ elim (Bool-cases e.leader) [
    | inl l ↦ simp (c, l) (record { says = tt; retires = λ _. (refl, refl) })
    | inr l ↦ simp (c, l) (record { says = λ a b. (l, b); retires = λ _. (refl, refl) })
  ]
]

pub closed-Sound : (e : Election) → Retired e → Sound e (closed e)
unfolding closed Announced
closed-Sound e h = elim (Bool-cases e.closing) [
  | inl c ↦ simp c (record { says = tt; retires = h })
  | inr c ↦ simp c (record { says = λ a b. (a, c); retires = h })
]
