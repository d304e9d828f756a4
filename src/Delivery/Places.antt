-- ===== src/Delivery/Places.antt =====
-- queue.rs, event_uploader.rs, grpc.rs: where an event may be, in every state that the system reaches.
use scrooge_dlp.Common.{
  some, List, [], ◌∷◌, ◌++◌, ◌≡◌, sym, subst, arith, ◌⊎◌, inl, inr, concat, concat-append,
}
use scrooge_dlp.Common.Int.{ℤ}
use scrooge_dlp.Common.Member.{In, In-append_left, In-append_right, In-append_cases}
use scrooge_dlp.Manager.World.{Uuid}
use scrooge_dlp.Manager.Details.{Event}
use scrooge_dlp.Manager.Events.{EventRow, Sources, insert_event_batch_atomic}
use scrooge_dlp.Manager.Events.Resend.{stored, stored-keeps}
use scrooge_dlp.Agent.Queue.{EventQueue, pending, open_queue, enqueue, purge_sent_older_than}
use scrooge_dlp.Agent.Queue.Laws.{IsValid, enqueue-IsValid, purge-IsValid}
use scrooge_dlp.Agent.Queue.Refinement.{pending-purge}
use scrooge_dlp.Agent.Uploader.{Conditions}
use scrooge_dlp.Agent.Uploader.Laws.{Holds, enqueue-Holds}
use scrooge_dlp.Delivery.{
  Codec, System, initial, uploader, ticked, Step, report, tick, store, fail, break, purge, restart,
  Reach, start, next,
}
use scrooge_dlp.Delivery.Stored.{
  Keyed, row, Has, insert_event_batch-stored, stored-Keyed, stored-Has, stored-In,
}
use scrooge_dlp.Delivery.Queued.{Covers, drain_once-Kept}

module _ (codec : Codec) (sources : Sources) (agent : Uuid) where
  abbrev pub Known : Event → Type 0
  Known e = (id : Uuid) × (sources.parse_uuid e.event_id ≡ some id)

  -- The event waits, is in the stream, is lost, or is in the table.
  abbrev pub Place : System → List Event → Event → Type 0
  Place s waiting e = Covers waiting s.wire e ⊎ (In e (concat s.lost) ⊎ Has sources agent e s.table)

  pub record Inv (table : List EventRow) (s : System) : Type 0 where
    pub valid : IsValid s.queue
    pub waiting : List Event
    pub holds : Holds codec.decode (pending s.queue) waiting
    pub keyed : Keyed s.table
    pub known : (e : Event) → In e s.recorded → Known e
    pub place : (e : Event) → In e s.recorded → Place s waiting e
    pub recorded : (e : Event) → Covers waiting s.wire e → In e s.recorded
    pub rows :
        (r : EventRow)
        → In r s.table
        → In r table ⊎ ((e : Event) × In e s.recorded × (r ≡ row sources agent e))

  initial-Inv : (table : List EventRow) → Keyed table → Inv table (initial table)
  unfolding open_queue
  initial-Inv table k = record {
    valid = omega arith;
    waiting = [];
    holds = tt;
    keyed = k;
    known = λ e m. absurd m;
    place = λ e m. absurd m;
    recorded = λ e m. elim m [ inl n ↦ n | inr n ↦ n ];
    rows = λ r m. inl m;
  }

  report-Inv :
      (table : List EventRow) (s : System) (now : ℤ) (e : Event) (id : Uuid)
      → codec.decode (codec.encode e) ≡ some e
      → sources.parse_uuid e.event_id ≡ some id
      → Inv table s
      → Inv table
          (record s { queue = (enqueue codec.encode now e s.queue).1; recorded = e ∷ s.recorded })
  report-Inv table s now e id trip h inv = record {
    valid = enqueue-IsValid codec.encode now e s.queue inv.valid;
    waiting = inv.waiting ++ e ∷ [];
    holds = enqueue-Holds codec.decode codec.encode now e s.queue inv.waiting trip inv.holds;
    keyed = inv.keyed;
    known = λ x m. elim m [ inl same ↦ subst Known (sym same) (id, h) | inr old ↦ inv.known x old ];
    place = λ x m. elim m [
      | inl same ↦ inl (inl (In-append_right x inv.waiting (e ∷ []) (inl same)))
      | inr old ↦ elim (inv.place x old) [
        | inl (inl k) ↦ inl (inl (In-append_left x inv.waiting (e ∷ []) k))
        | inl (inr k) ↦ inl (inr k)
        | inr k ↦ inr k
      ]
    ];
    recorded = λ x m. elim m [
      | inl k ↦ elim (In-append_cases x inv.waiting (e ∷ []) k) [
        | inl old ↦ inr (inv.recorded x (inl old))
        | inr new ↦ inl (elim new [ inl same ↦ same | inr n ↦ absurd n ])
      ]
      | inr k ↦ inr (inv.recorded x (inr k))
    ];
    rows =
        λ r m. elim (inv.rows r m) [ inl old ↦ inl old | inr (x, k, same) ↦ inr (x, inr k, same) ];
  }

  tick-Inv :
      (table : List EventRow) (s : System) (c : Conditions)
      → Inv table s
      → Inv table (ticked codec sources agent c s)
  tick-Inv table s c inv =
      let kept =
        drain_once-Kept codec.decode c (uploader codec sources agent s) inv.waiting inv.valid
          inv.holds in
      record {
        valid = kept.valid;
        waiting = kept.left;
        holds = kept.holds;
        keyed = inv.keyed;
        known = inv.known;
        place = λ e m. elim (inv.place e m) [ inl k ↦ inl (kept.all_there e k) | inr k ↦ inr k ];
        recorded = λ e m. inv.recorded e (kept.none_new e m);
        rows = inv.rows;
      }

  -- The oldest batch of the stream, and the rest of it.
  module _ (s : System) (batch : List Event) (rest : List (List Event))
      (w : s.wire ≡ batch ∷ rest) where
    of_wire : (e : Event) → In e (concat s.wire) → In e batch ⊎ In e (concat rest)
    of_wire e m = In-append_cases e batch (concat rest) (subst (λ x. In e (concat x)) w m)

    In-batch : (e : Event) → In e batch → In e (concat s.wire)
    In-batch e m = subst (λ x. In e (concat x)) (sym w) (In-append_left e batch (concat rest) m)

    In-rest : (e : Event) → In e (concat rest) → In e (concat s.wire)
    In-rest e m = subst (λ x. In e (concat x)) (sym w) (In-append_right e batch (concat rest) m)

    store-Inv :
        (table : List EventRow)
        → Inv table s
        → Inv table (record s { wire = rest; table = stored sources agent 0 batch s.table })
    store-Inv table inv = record {
      valid = inv.valid;
      waiting = inv.waiting;
      holds = inv.holds;
      keyed = stored-Keyed sources agent 0 batch s.table inv.keyed;
      known = inv.known;
      place = λ e m. elim (inv.place e m) [
        | inl (inl k) ↦ inl (inl k)
        | inl (inr k) ↦ elim (of_wire e k) [
          | inl b ↦
              inr (
                inr
                  (stored-Has sources agent batch s.table e (inv.known e m).0 (inv.known e m).1 b))
          | inr r ↦ inl (inr r)
        ]
        | inr (inl k) ↦ inr (inl k)
        | inr (inr k) ↦
            inr (inr (stored-keeps sources agent (row sources agent e) 0 batch s.table k))
      ];
      recorded = λ e m. elim m [
        | inl k ↦ inv.recorded e (inl k)
        | inr k ↦ inv.recorded e (inr (In-rest e k))
      ];
      rows = λ r m.
          elim (stored-In sources agent 0 batch s.table r
            (λ e k. inv.known e (inv.recorded e (inr (In-batch e k)))) m) [
              | inl old ↦ inv.rows r old
              | inr (e, k, same) ↦ inr (e, inv.recorded e (inr (In-batch e k)), same)
            ];
    }

    fail-Inv :
        (table : List EventRow)
        → Inv table s
        → Inv table (record s { wire = rest; lost = batch ∷ s.lost })
    fail-Inv table inv = record {
      valid = inv.valid;
      waiting = inv.waiting;
      holds = inv.holds;
      keyed = inv.keyed;
      known = inv.known;
      place = λ e m. elim (inv.place e m) [
        | inl (inl k) ↦ inl (inl k)
        | inl (inr k) ↦ elim (of_wire e k) [
          | inl b ↦ inr (inl (In-append_left e batch (concat s.lost) b))
          | inr r ↦ inl (inr r)
        ]
        | inr (inl k) ↦ inr (inl (In-append_right e batch (concat s.lost) k))
        | inr (inr k) ↦ inr (inr k)
      ];
      recorded = λ e m. elim m [
        | inl k ↦ inv.recorded e (inl k)
        | inr k ↦ inv.recorded e (inr (In-rest e k))
      ];
      rows = inv.rows;
    }

  break-Inv :
      (table : List EventRow) (s : System)
      → Inv table s
      → Inv table (record s { wire = []; lost = s.wire ++ s.lost })
  break-Inv table s inv = record {
    valid = inv.valid;
    waiting = inv.waiting;
    holds = inv.holds;
    keyed = inv.keyed;
    known = inv.known;
    place = λ e m. elim (inv.place e m) [
      | inl (inl k) ↦ inl (inl k)
      | inl (inr k) ↦ inr (inl (lost e (In-append_left e (concat s.wire) (concat s.lost) k)))
      | inr (inl k) ↦ inr (inl (lost e (In-append_right e (concat s.wire) (concat s.lost) k)))
      | inr (inr k) ↦ inr (inr k)
    ];
    recorded = λ e m. elim m [ inl k ↦ inv.recorded e (inl k) | inr k ↦ absurd k ];
    rows = inv.rows;
  }
    where
      lost : (e : Event) → In e (concat s.wire ++ concat s.lost) → In e (concat (s.wire ++ s.lost))
      lost e m = subst (In e) (sym (concat-append s.wire s.lost)) m

  queue-Inv :
      (table : List EventRow) (s : System) (q : EventQueue)
      → IsValid q
      → pending q ≡ pending s.queue
      → Inv table s
      → Inv table (record s { queue = q })
  queue-Inv table s q valid same inv = record {
    valid = valid;
    waiting = inv.waiting;
    holds = subst (λ rs. Holds codec.decode rs inv.waiting) (sym same) inv.holds;
    keyed = inv.keyed;
    known = inv.known;
    place = inv.place;
    recorded = inv.recorded;
    rows = inv.rows;
  }

  Step-Inv :
      {table : List EventRow} {s t : System}
      → Step codec sources agent s t
      → Inv table s
      → Inv table t
  unfolding open_queue purge_sent_older_than
  Step-Inv {table} (report s now e id trip h) inv = report-Inv table s now e id trip h inv
  Step-Inv {table} (tick s c) inv = tick-Inv table s c inv
  Step-Inv {table} (store s batch rest fs n w h) inv =
      rw (insert_event_batch-stored sources agent batch fs n s.table h)
        (store-Inv s batch rest w table inv)
  Step-Inv {table} (fail s batch rest fs w h) inv =
      rw (insert_event_batch_atomic sources agent batch fs s.table h)
        (fail-Inv s batch rest w table inv)
  Step-Inv {table} (break s) inv = break-Inv table s inv
  Step-Inv {table} (purge s cutoff) inv =
      queue-Inv table s _ (purge-IsValid cutoff s.queue inv.valid)
        (pending-purge cutoff s.queue.rows) inv
  Step-Inv {table} (restart s) inv = inv

  pub Reach-Inv :
      {table : List EventRow} {s : System}
      → Keyed table
      → Reach codec sources agent table s
      → Inv table s
  Reach-Inv {table} k start = initial-Inv table k
  Reach-Inv k (next r st) = Step-Inv st (Reach-Inv k r)
