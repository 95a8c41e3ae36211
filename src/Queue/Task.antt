-- ===== src/Queue/Task.antt =====
-- packages/db/src/queue.ts, lines 11 to 30, and the `tasks` table of the migrations.
use karya_kram.Base.{
  ℕ, String, Bool, true, false, Option, List, [], ◌∷◌, nat_beq, length, select, if◌then◌else◌,
}

pub data TaskType : Type 0 where
  workflow activity timer llm tool : TaskType

pub data TaskStatus : Type 0 where
  pending leased completed dead : TaskStatus

pub record Task : Type 0 where
  pub id : ℕ
  pub task_type : TaskType
  pub workflow_id : String
  pub queue : String
  pub scheduled_event_seq : Option ℕ
  pub status : TaskStatus
  pub run_after : ℕ
  pub attempt : ℕ
  pub max_attempts : ℕ
  pub last_error : Option String
  pub leased_by : Option String
  pub lease_expires_at : Option ℕ
  pub created_at : ℕ
  pub trace_context : Option String

-- The table, the next value of its id sequence, and the queue names notified so far.
pub record Tasks : Type 0 where
  pub rows : List Task
  pub next_id : ℕ
  pub notified : List String

abbrev pub rank : TaskType → ℕ
rank workflow = 0
rank activity = 1
rank timer = 2
rank llm = 3
rank tool = 4

abbrev pub same_type : TaskType → TaskType → Bool
same_type a b = nat_beq (rank a) (rank b)

abbrev pub is_pending : TaskStatus → Bool
is_pending pending = true
is_pending _ = false

abbrev pub is_leased : TaskStatus → Bool
is_leased leased = true
is_leased _ = false

abbrev pub is_completed : TaskStatus → Bool
is_completed completed = true
is_completed _ = false

abbrev pub is_dead : TaskStatus → Bool
is_dead dead = true
is_dead _ = false

-- UPDATE tasks SET … WHERE …
abbrev pub update_where : (Task → Bool) → (Task → Task) → List Task → List Task
update_where p f [] = []
update_where p f (t ∷ ts) = (if p t then f t else t) ∷ update_where p f ts

-- The number of rows that a condition matches.
abbrev pub count_where : (Task → Bool) → List Task → ℕ
count_where p ts = length (select p ts)
