-- ===== src/Debugger/Stream.antt =====
-- packages/api/src/server.ts, lines 41 to 63: the event stream of a workflow, and
-- packages/web/src/useWorkflowEvents.ts: the events that the browser holds. A poll of the stream reads
-- where it left off, awaits its query, and then writes what it got; polls may overlap.
use karya_kram.Base.{ℕ, String, Bool, List, [], ◌∷◌, ◌++◌, any, nat_beq, if◌then◌else◌}
use karya_kram.Workflow.Events.{StoredWorkflowEvent}
use karya_kram.Store.Events.{Db, get_events_since, order_by_seq}

-- `lastSeq` after the events of one poll are written.
unfoldable pub last_written : ℕ → List StoredWorkflowEvent → ℕ
last_written last_seq [] = last_seq
last_written last_seq (e ∷ es) = last_written e.seq es

-- One poll that read `since` when it began: the new `lastSeq` and what was written.
unfoldable pub stream_poll : String → ℕ → ℕ → Db → ℕ × List StoredWorkflowEvent
unfolding last_written get_events_since
stream_poll wf since last_seq db =
    let events = get_events_since wf since db in (last_written last_seq events, events)

abbrev pub has_seq : ℕ → List StoredWorkflowEvent → Bool
has_seq n view = any (λ e. nat_beq e.seq n) view

-- The sequence number that the stream is asked to begin after.
unfoldable pub last_seq_of : List StoredWorkflowEvent → ℕ
last_seq_of [] = 0
last_seq_of (e ∷ []) = e.seq
last_seq_of (e ∷ f ∷ es) = last_seq_of (f ∷ es)

-- An event of the stream: dropped where its number is held already.
unfoldable pub receive : StoredWorkflowEvent → List StoredWorkflowEvent → List StoredWorkflowEvent
unfolding order_by_seq
receive event prev = if has_seq event.seq prev then prev else order_by_seq (prev ++ event ∷ [])

unfoldable pub receive_all :
    List StoredWorkflowEvent → List StoredWorkflowEvent → List StoredWorkflowEvent
unfolding receive
receive_all [] view = view
receive_all (e ∷ es) view = receive_all es (receive e view)
