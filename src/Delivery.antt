-- ===== src/Delivery.antt =====
-- The way of an event from the agent to the manager's table: the queue of
-- crates/scrooge-agent-core/src/queue.rs, the uploader of
-- crates/scrooge-agent-bin/src/event_uploader.rs, the stream between them, and the batches that
-- crates/scrooge-manager-bin/src/grpc.rs stores.
pub mod Stored
pub mod Queued
pub mod Places
pub mod Once
use scrooge_dlp.Common.{ℕ, Bool, Option, none, some, List, [], ◌∷◌, ◌++◌, ◌≡◌}
use scrooge_dlp.Common.Int.{ℤ}
use scrooge_dlp.Manager.World.{Uuid}
use scrooge_dlp.Manager.Details.{Event}
use scrooge_dlp.Manager.Events.{EventRow, Sources, insert_event_batch}
use scrooge_dlp.Agent.Queue.{Bytes, EventQueue, open_queue, enqueue, purge_sent_older_than}
use scrooge_dlp.Agent.Uploader.{Conditions, Uploader, drain_once}

-- The encoding of events (prost).
pub record Codec : Type 0 where
  pub encode : Event → Bytes
  pub decode : Bytes → Option Event

-- The queue, the batches in the stream and the table of the manager; and of what has happened, the
-- events that were queued and the batches that no table holds: those of a stream that broke, and those
-- whose transaction failed.
pub record System : Type 0 where
  pub queue : EventQueue
  pub wire : List (List Event)
  pub table : List EventRow
  pub recorded : List Event
  pub lost : List (List Event)

-- An agent that was just installed, beside a manager with a table.
abbrev pub initial : List EventRow → System
initial table = record {
  queue = open_queue none;
  wire = [];
  table = table;
  recorded = [];
  lost = [];
}

module _ (codec : Codec) (sources : Sources) (agent : Uuid) where
  abbrev pub uploader : System → Uploader Event
  uploader s = record { queue = s.queue; sent = s.wire }

  abbrev pub ticked : Conditions → System → System
  ticked c s = record s {
    queue = (drain_once codec.decode c (uploader s)).1.queue;
    wire = (drain_once codec.decode c (uploader s)).1.sent;
  }

  abbrev pub answered : List Event → List Bool → List EventRow → Option ℕ × List EventRow
  answered batch fs table = insert_event_batch sources agent batch fs table

  -- What may happen next: a module of the agent reports an event, which the decoder reads back and
  -- which bears a valid identity; the
  -- uploader ticks under any conditions; the manager stores the oldest batch of the stream, with faults
  -- or without, or fails to; the stream breaks; old rows are purged; the agent starts again.
  pub data Step : System → System → Type 0 where
    report :
        (s : System) (now : ℤ) (e : Event) (id : Uuid)
        → codec.decode (codec.encode e) ≡ some e
        → sources.parse_uuid e.event_id ≡ some id
        → Step s
            (record s { queue = (enqueue codec.encode now e s.queue).1; recorded = e ∷ s.recorded })
    tick : (s : System) (c : Conditions) → Step s (ticked c s)
    store :
        (s : System) (batch : List Event) (rest : List (List Event)) (fs : List Bool) (n : ℕ)
        → s.wire ≡ batch ∷ rest
        → (answered batch fs s.table).0 ≡ some n
        → Step s (record s { wire = rest; table = (answered batch fs s.table).1 })
    fail :
        (s : System) (batch : List Event) (rest : List (List Event)) (fs : List Bool)
        → s.wire ≡ batch ∷ rest
        → (answered batch fs s.table).0 ≡ none
        → Step s
            (record s { wire = rest; table = (answered batch fs s.table).1; lost = batch ∷ s.lost })
    break : (s : System) → Step s (record s { wire = []; lost = s.wire ++ s.lost })
    purge :
        (s : System) (cutoff : ℤ)
        → Step s (record s { queue = (purge_sent_older_than cutoff s.queue).1 })
    restart : (s : System) → Step s (record s { queue = open_queue (some s.queue) })

  pub data Reach (table : List EventRow) : System → Type 0 where
    start : Reach table (initial table)
    next : {s t : System} → Reach table s → Step s t → Reach table t
