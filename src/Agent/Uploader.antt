-- ===== src/Agent/Uploader.antt =====
-- crates/scrooge-agent-bin/src/event_uploader.rs: the task that sends the queue's events to the
-- manager, a batch at each tick.
pub mod Laws
use scrooge_dlp.Common.{
  ℕ, Bool, true, false, Option, List, [], ◌∷◌, ◌++◌, Outcome, ok, err, if◌then◌else◌, is_empty, map,
}
use scrooge_dlp.Common.Int.{ℤ}
use scrooge_dlp.Agent.Queue.{
  Bytes, EventQueue, QueueError, sqlite, PendingEvent, take_batch, mark_sent,
}

-- BATCH_LIMIT
abbrev pub batch_limit : ℕ
batch_limit = 50

-- What a tick meets: whether SQLite and the channel work, and the time.
pub record Conditions : Type 0 where
  pub read_fails : Bool
  pub closed : Bool
  pub mark_fails : Bool
  pub now : ℤ

pub data DrainError : Type 0 where
  queue_error : QueueError → DrainError
  channel_closed : DrainError

-- The queue, and the batches that went into the channel to the manager.
pub record Uploader (Event : Type 0) : Type 0 where
  pub queue : EventQueue
  pub sent : List (List Event)

module _ {Event : Type 0} (decode : Bytes → Option Event) where
  abbrev pub send_batch :
      Conditions
      → List (PendingEvent Event)
      → Uploader Event
      → Outcome DrainError (Unit {0}) × Uploader Event
  send_batch c batch u =
      if c.closed
      then (err channel_closed, u)
      else (let v = record u { sent = u.sent ++ map (λ p. p.event) batch ∷ [] } in
          if c.mark_fails
          then (err (queue_error sqlite), v)
          else (ok tt, record v { queue = mark_sent c.now (map (λ p. p.id) batch) u.queue }))

  -- `drain_once`
  unfoldable pub drain_once :
      Conditions → Uploader Event → Outcome DrainError (Unit {0}) × Uploader Event
  unfolding take_batch
  drain_once c u =
      if c.read_fails
      then (err (queue_error sqlite), u)
      else elim (take_batch decode batch_limit u.queue) [
        | err e ↦ (err (queue_error e), u)
        | ok batch ↦ if is_empty batch then (ok tt, u) else send_batch c batch u
      ]

  -- The loop of `spawn_uploader`: a tick after a tick until one fails.
  unfoldable pub run_ticks : List Conditions → Uploader Event → Uploader Event
  run_ticks [] u = u
  run_ticks (c ∷ cs) u = elim ((drain_once c u).0) [
    | err e ↦ (drain_once c u).1
    | ok a ↦ run_ticks cs (drain_once c u).1
  ]
