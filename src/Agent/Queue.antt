-- ===== src/Agent/Queue.antt =====
-- crates/scrooge-agent-core/src/queue.rs: the events that wait on disk. The table is held in the
-- order of its key. The encoding of events (prost) is a parameter.
pub mod Laws
pub mod Refinement
use scrooge_dlp.Common.{
  ℕ, Bool, true, false, not, ◌&&◌, ◌||◌, Option, none, some, List, [], ◌∷◌, ◌++◌, ◌+◌, ◌-◌, Outcome,
  ok, err, ok_or, ◌>>=◌, if◌then◌else◌, ◌==◌, length, is_empty, filter, map, take,
}
use scrooge_dlp.Common.Int.{ℤ, ltb_ℤ}

abbrev pub Bytes : Type 0
Bytes = List ℕ

-- A row of `events_pending`, with times in Unix seconds.
pub record Row : Type 0 where
  pub id : ℕ
  pub created_at : ℤ
  pub sent_at : Option ℤ
  pub payload : Bytes

-- The table, and the next key that `AUTOINCREMENT` gives.
pub record EventQueue : Type 0 where
  pub rows : List Row
  pub next_id : ℕ

pub data QueueError : Type 0 where
  sqlite decode_error : QueueError

pub record PendingEvent (Event : Type 0) : Type 0 where
  pub id : ℕ
  pub event : Event

abbrev pub is_unsent : Row → Bool
is_unsent r = elim r.sent_at [ none ↦ true | some t ↦ false ]

-- The rows `WHERE sent_at IS NULL`.
abbrev pub pending : EventQueue → List Row
pending q = filter is_unsent q.rows

-- `open`: `CREATE TABLE IF NOT EXISTS`.
unfoldable pub open_queue : Option EventQueue → EventQueue
open_queue none = record { rows = []; next_id = 1 }
open_queue (some q) = q

module _ {Event : Type 0} (encode : Event → Bytes) where
  -- `enqueue`
  unfoldable pub enqueue : ℤ → Event → EventQueue → ℕ × EventQueue
  enqueue now event q = (
    q.next_id,
    record q {
      rows =
          q.rows
          ++ record { id = q.next_id; created_at = now; sent_at = none; payload = encode event }
            ∷ [];
      next_id = q.next_id + 1;
    },
  )

module _ {Event : Type 0} (decode : Bytes → Option Event) where
  abbrev pub decode_rows : List Row → Outcome QueueError (List (PendingEvent Event))
  decode_rows [] = ok []
  decode_rows (r ∷ rs) = do
    event ← ok_or (decode r.payload) decode_error
    rest ← decode_rows rs
    ok (record { id = r.id; event = event } ∷ rest)

  -- `take_batch`
  unfoldable pub take_batch : ℕ → EventQueue → Outcome QueueError (List (PendingEvent Event))
  take_batch limit q = decode_rows (take limit (pending q))

abbrev pub contains : ℕ → List ℕ → Bool
contains n [] = false
contains n (m ∷ ms) = (n == m) || contains n ms

abbrev pub mark_rows : ℤ → (ℕ → Bool) → List Row → List Row
mark_rows now p [] = []
mark_rows now p (r ∷ rs) =
    (if p r.id then record r { sent_at = some now } else r) ∷ mark_rows now p rs

-- `mark_sent`
unfoldable pub mark_sent : ℤ → List ℕ → EventQueue → EventQueue
mark_sent now ids q =
    if is_empty ids then q else record q { rows = mark_rows now (λ n. contains n ids) q.rows }

abbrev pub is_old : ℤ → Row → Bool
is_old cutoff r = elim r.sent_at [ none ↦ false | some t ↦ ltb_ℤ t cutoff ]

-- `purge_sent_older_than`, with the number of rows that went.
unfoldable pub purge_sent_older_than : ℤ → EventQueue → ℕ × EventQueue
purge_sent_older_than cutoff q = (
  length (filter (is_old cutoff) q.rows),
  record q { rows = filter (λ r. not (is_old cutoff r)) q.rows },
)

-- `pending_count`
unfoldable pub pending_count : EventQueue → ℕ
pending_count q = length (pending q)
