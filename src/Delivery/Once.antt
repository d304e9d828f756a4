-- ===== src/Delivery/Once.antt =====
-- queue.rs, event_uploader.rs, grpc.rs: no event is lost but with a batch, and none is stored twice.
use scrooge_dlp.Common.{List, ◌≡◌, arith, ◌⊎◌, inl, inr, concat}
use scrooge_dlp.Common.Member.{In}
use scrooge_dlp.Manager.World.{Uuid}
use scrooge_dlp.Manager.Details.{Event}
use scrooge_dlp.Manager.Events.{EventRow, Sources, same_key}
use scrooge_dlp.Agent.Queue.{pending}
use scrooge_dlp.Agent.Uploader.Laws.{Holds}
use scrooge_dlp.Delivery.{Codec, System, Reach}
use scrooge_dlp.Delivery.Stored.{count, Keyed, count-any, row, Has}
use scrooge_dlp.Delivery.Places.{Inv, Reach-Inv}

-- The key of an event occurs in the table just once.
abbrev pub StoredOnce : Sources → Uuid → List EventRow → Event → Type 0
StoredOnce sources agent table e = count (same_key (row sources agent e)) table ≡ 1

module _ (codec : Codec) (sources : Sources) (agent : Uuid) (table : List EventRow)
    (keyed : Keyed table) (s : System) (reached : Reach codec sources agent table s) where
  abbrev inv : Inv codec sources agent table s
  inv = Reach-Inv codec sources agent keyed reached

  once : (e : Event) → Has sources agent e s.table → StoredOnce sources agent s.table e
  once e h =
      omega (
        arith,
        inv.keyed (row sources agent e),
        count-any (same_key (row sources agent e)) s.table h,
      )

  -- In every state that is reached from a table whose keys are distinct, whatever faults the ticks and
  -- the transactions meet and wherever the stream breaks: an event that was queued waits in the queue,
  -- is in the stream, is in a batch that was lost, or is in the table, once.
  pub reached-conserves :
      (e : Event)
      → In e s.recorded
      → (waiting : List Event) × Holds codec.decode (pending s.queue) waiting
        × (In e waiting
            ⊎ (In e (concat s.wire) ⊎ (In e (concat s.lost) ⊎ StoredOnce sources agent s.table e)))
  reached-conserves e m = (
    inv.waiting,
    inv.holds,
    elim (inv.place e m) [
      | inl (inl k) ↦ inl k
      | inl (inr k) ↦ inr (inl k)
      | inr (inl k) ↦ inr (inr (inl k))
      | inr (inr k) ↦ inr (inr (inr (once e k)))
    ],
  )

  -- A row of the table was there at the start, or is the one of an event that was queued.
  pub reached-invents_nothing :
      (r : EventRow)
      → In r s.table
      → In r table ⊎ ((e : Event) × In e s.recorded × (r ≡ row sources agent e))
  reached-invents_nothing r m = inv.rows r m
