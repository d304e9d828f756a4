-- ===== src/Agent/Queue/Refinement.antt =====
-- queue.rs against a plain queue of events: a list to which events are added at the end and from whose
-- front those that were sent are dropped.
use scrooge_dlp.Common.{
  map-append, map-drop, ℕ, suc, zero, not, Option, none, some, List, [], ◌∷◌, ◌++◌, ◌≡◌, refl, sym,
  ap, ◌∙◌, arith, Outcome, ok, err, ◌>>=◌, Bool-cases, Option-cases, inl, inr, length, filter, map,
  take, drop, filter-append,
}
use scrooge_dlp.Common.Int.{ℤ, ltb_ℤ}
use mathlib.Core.Option
use scrooge_dlp.Agent.Queue.{
  Bytes, Row, EventQueue, QueueError, PendingEvent, is_unsent, pending, open_queue, enqueue,
  mark_sent, is_old, purge_sent_older_than, decode_rows, take_batch, pending_count,
}
use scrooge_dlp.Agent.Queue.Laws.{
  IsValid, ids_of, enqueue-IsValid, mark_sent-IsValid, purge-IsValid, pending-mark_sent,
  pending-unsent,
}

-- What is done with a queue: an event comes in, the first `n` that wait are marked as sent, old rows
-- are purged, the file is opened again after a restart.
pub data QueueCall (Event : Type 0) : Type 0 where
  put : ℤ → Event → QueueCall Event
  settle : ℤ → ℕ → QueueCall Event
  purge : ℤ → QueueCall Event
  reopen : QueueCall Event

module _ {Event : Type 0} where
  -- The plain queue.
  abbrev pub plain : QueueCall Event → List Event → List Event
  plain (put now e) es = es ++ e ∷ []
  plain (settle now n) es = drop n es
  plain (purge cutoff) es = es
  plain reopen es = es

  abbrev pub plain_run : List (QueueCall Event) → List Event → List Event
  plain_run [] es = es
  plain_run (c ∷ cs) es = plain_run cs (plain c es)

  module _ (encode : Event → Bytes) where
    abbrev pub step : QueueCall Event → EventQueue → EventQueue
    step (put now e) q = (enqueue encode now e q).1
    step (settle now n) q = mark_sent now (ids_of (take n (pending q))) q
    step (purge cutoff) q = (purge_sent_older_than cutoff q).1
    step reopen q = open_queue (some q)

    abbrev pub run : List (QueueCall Event) → EventQueue → EventQueue
    run [] q = q
    run (c ∷ cs) q = run cs (step c q)

payloads : List Row → List Bytes
payloads rs = map (λ r. r.payload) rs

-- A row that waits is never old.
kept_row :
    (cutoff : ℤ) (r : Row) (rs : List Row)
    → r.sent_at ≡ none
    → filter (λ x. not (is_old cutoff x)) (r ∷ rs) ≡ r ∷ filter (λ x. not (is_old cutoff x)) rs
kept_row cutoff r rs e = rw e

pub pending-purge :
    (cutoff : ℤ) (rs : List Row)
    → filter is_unsent (filter (λ r. not (is_old cutoff r)) rs) ≡ filter is_unsent rs
pending-purge cutoff [] = refl
pending-purge cutoff (r ∷ rs) = elim (Option-cases r.sent_at) [
  | inl e ↦
      ap (filter is_unsent) (kept_row cutoff r rs e)
      ∙ pending-unsent r (filter (λ x. not (is_old cutoff x)) rs) e
      ∙ ap (λ xs. r ∷ xs) (pending-purge cutoff rs)
      ∙ sym (pending-unsent r rs e)
  | inr (t, e) ↦ elim (Bool-cases (ltb_ℤ t cutoff)) [
    | inl old ↦ rw (e, old) (pending-purge cutoff rs)
    | inr new ↦ rw (e, new) (pending-purge cutoff rs)
  ]
]

module _ {Event : Type 0} (encode : Event → Bytes) where
  -- The table holds the events of the plain queue, in order, as the rows that wait.
  record Holds (q : EventQueue) (es : List Event) : Type 0 where
    valid : IsValid q
    waiting : map (λ r. r.payload) (pending q) ≡ map encode es

  step-Holds :
      (c : QueueCall Event) (q : EventQueue) (es : List Event)
      → Holds q es
      → Holds (step encode c q) (plain c es)
  unfolding enqueue open_queue purge_sent_older_than
  step-Holds (put now e) q es h = record {
    valid = enqueue-IsValid encode now e q h.valid;
    waiting =
        ap (map (λ r. r.payload)) (filter-append is_unsent q.rows _)
        ∙ map-append (λ r. r.payload) (pending q) _
        ∙ ap (λ bs. bs ++ encode e ∷ []) h.waiting
        ∙ sym (map-append encode es (e ∷ []));
  }
  step-Holds (settle now n) q es h = record {
    valid = mark_sent-IsValid now _ q h.valid;
    waiting =
        ap (map (λ r. r.payload)) (pending-mark_sent now n q h.valid)
        ∙ map-drop (λ r. r.payload) n (pending q)
        ∙ ap (drop n) h.waiting
        ∙ sym (map-drop encode n es);
  }
  step-Holds (purge cutoff) q es h = record {
    valid = purge-IsValid cutoff q h.valid;
    waiting = ap (map (λ r. r.payload)) (pending-purge cutoff q.rows) ∙ h.waiting;
  }
  step-Holds reopen q es h = h

  run-Holds :
      (cs : List (QueueCall Event)) (q : EventQueue) (es : List Event)
      → Holds q es
      → Holds (run encode cs q) (plain_run cs es)
  run-Holds [] q es h = h
  run-Holds (c ∷ cs) q es h = run-Holds cs _ _ (step-Holds c q es h)

  same_length :
      (rs : List Row) (es : List Event)
      → map (λ r. r.payload) rs ≡ map encode es
      → length rs ≡ length es
  same_length [] [] h = refl
  same_length [] (e ∷ es) h = absurd (cc h)
  same_length (r ∷ rs) [] h = absurd (cc h)
  same_length (r ∷ rs) (e ∷ es) h = ap suc (same_length rs es (cc h))

  module _ (decode : Bytes → Option Event)
      (round_trip : (e : Event) → decode (encode e) ≡ some e) where
    -- The events of a batch.
    abbrev pub events_of : Outcome QueueError (List (PendingEvent Event)) → Option (List Event)
    events_of (ok ps) = some (map (λ p. p.event) ps)
    events_of (err e) = none

    events_of-cons :
        (id : ℕ) (e : Event) (o : Outcome QueueError (List (PendingEvent Event))) (es : List Event)
        → events_of o ≡ some es
        → events_of (o >>= λ rest. ok (record { id = id; event = e } ∷ rest)) ≡ some (e ∷ es)
    events_of-cons id e (ok ps) es h = ap (Option.map (λ xs. e ∷ xs)) h
    events_of-cons id e (err x) es h = absurd (cc h)

    decode_rows-events :
        (n : ℕ) (rs : List Row) (es : List Event)
        → map (λ r. r.payload) rs ≡ map encode es
        → events_of (decode_rows decode (take n rs)) ≡ some (take n es)
    decode_rows-events zero rs es h = refl
    decode_rows-events (suc n) [] [] h = refl
    decode_rows-events (suc n) [] (e ∷ es) h = absurd (cc h)
    decode_rows-events (suc n) (r ∷ rs) [] h = absurd (cc h)
    decode_rows-events (suc n) (r ∷ rs) (e ∷ es) h =
        let rest = decode_rows-events n rs es (cc h) in
        let payload : r.payload ≡ encode e = cc h in
        rw (payload, round_trip e)
          (events_of-cons r.id e (decode_rows decode (take n rs)) (take n es) rest)

    -- The queue on disk is a plain queue: after any events came in, batches were marked as sent, old
    -- rows were purged and the file was opened again, in any order, a batch holds the first events of
    -- the plain queue, in order and intact, and as many wait as the plain queue holds. The codec is
    -- assumed to decode what it encoded.
    pub run-refines :
        (cs : List (QueueCall Event)) (limit : ℕ)
        → let q = run encode cs (open_queue none) in
          (events_of (take_batch decode limit q) ≡ some (take limit (plain_run cs [])))
          × (pending_count q ≡ length (plain_run cs []))
    unfolding open_queue take_batch pending_count
    run-refines cs limit =
        let h =
          run-Holds cs (open_queue none) [] (record { valid = omega arith; waiting = refl }) in
        (
          decode_rows-events limit _ _ h.waiting,
          same_length (pending (run encode cs (open_queue none))) (plain_run cs []) h.waiting,
        )
