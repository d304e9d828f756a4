-- ===== src/Agent/Uploader/Laws.antt =====
-- event_uploader.rs: what a tick sends and what it leaves in the queue.
use scrooge_dlp.Common.{
  ℕ, suc, zero, false, Option, some, List, [], ◌∷◌, ◌++◌, ◌≡◌, ◌⊎◌, inl, inr, refl, sym, ap, ◌∙◌,
  arith, ok, Bool-cases, is_empty, length, concat, append-nil, append_assoc, concat-snoc, take-drop,
  ◌*◌, ◌≤◌, length-drop, map, take, drop, filter-append,
}
use scrooge_dlp.Common.Int.{ℤ}
use scrooge_dlp.Agent.Queue.{
  Bytes, Row, EventQueue, PendingEvent, pending, enqueue, decode_rows, take_batch, mark_sent,
  is_unsent,
}
use scrooge_dlp.Agent.Queue.Laws.{IsValid, ids_of, pending-mark_sent, mark_sent-IsValid}
use scrooge_dlp.Agent.Uploader.{batch_limit, Conditions, Uploader, drain_once, run_ticks}

module _ {Event : Type 0} (decode : Bytes → Option Event) where
  -- The rows hold these events, in this order.
  abbrev pub Holds : List Row → List Event → Type 0
  Holds [] [] = Unit
  Holds [] (e ∷ es) = ⊥
  Holds (r ∷ rs) [] = ⊥
  Holds (r ∷ rs) (e ∷ es) = (decode r.payload ≡ some e) × Holds rs es

  Holds-append :
      (rs ss : List Row) (es fs : List Event)
      → Holds rs es
      → Holds ss fs
      → Holds (rs ++ ss) (es ++ fs)
  Holds-append [] ss [] fs h k = k
  Holds-append [] ss (e ∷ es) fs h k = absurd h
  Holds-append (r ∷ rs) ss [] fs h k = absurd h
  Holds-append (r ∷ rs) ss (e ∷ es) fs h k = (h.0, Holds-append rs ss es fs h.1 k)

  Holds-take :
      (n : ℕ) (rs : List Row) (es : List Event) → Holds rs es → Holds (take n rs) (take n es)
  Holds-take zero rs es h = tt
  Holds-take (suc n) [] [] h = tt
  Holds-take (suc n) [] (e ∷ es) h = absurd h
  Holds-take (suc n) (r ∷ rs) [] h = absurd h
  Holds-take (suc n) (r ∷ rs) (e ∷ es) h = (h.0, Holds-take n rs es h.1)

  Holds-drop :
      (n : ℕ) (rs : List Row) (es : List Event) → Holds rs es → Holds (drop n rs) (drop n es)
  Holds-drop zero rs es h = h
  Holds-drop (suc n) [] [] h = tt
  Holds-drop (suc n) [] (e ∷ es) h = absurd h
  Holds-drop (suc n) (r ∷ rs) [] h = absurd h
  Holds-drop (suc n) (r ∷ rs) (e ∷ es) h = Holds-drop n rs es h.1

  abbrev entries : List Row → List Event → List (PendingEvent Event)
  entries [] es = []
  entries (r ∷ rs) [] = []
  entries (r ∷ rs) (e ∷ es) = record { id = r.id; event = e } ∷ entries rs es

  decode_rows-Holds :
      (rs : List Row) (es : List Event) → Holds rs es → decode_rows decode rs ≡ ok (entries rs es)
  decode_rows-Holds [] [] h = refl
  decode_rows-Holds [] (e ∷ es) h = absurd h
  decode_rows-Holds (r ∷ rs) [] h = absurd h
  decode_rows-Holds (r ∷ rs) (e ∷ es) h = rw (h.0, decode_rows-Holds rs es h.1)

  events-entries :
      (rs : List Row) (es : List Event) → Holds rs es → map (λ p. p.event) (entries rs es) ≡ es
  events-entries [] [] h = refl
  events-entries [] (e ∷ es) h = absurd h
  events-entries (r ∷ rs) [] h = absurd h
  events-entries (r ∷ rs) (e ∷ es) h = ap (λ xs. e ∷ xs) (events-entries rs es h.1)

  ids-entries :
      (rs : List Row) (es : List Event) → Holds rs es → map (λ p. p.id) (entries rs es) ≡ ids_of rs
  ids-entries [] [] h = refl
  ids-entries [] (e ∷ es) h = absurd h
  ids-entries (r ∷ rs) [] h = absurd h
  ids-entries (r ∷ rs) (e ∷ es) h = ap (λ xs. r.id ∷ xs) (ids-entries rs es h.1)

  entries-not_empty :
      (rs : List Row) (e : Event) (es : List Event)
      → Holds rs (e ∷ es)
      → is_empty (entries rs (e ∷ es)) ≡ false
  entries-not_empty [] e es h = absurd h
  entries-not_empty (r ∷ rs) e es h = refl

  entries-none : (rs : List Row) → Holds rs [] → entries rs [] ≡ []
  entries-none [] h = refl
  entries-none (r ∷ rs) h = absurd h

  pub take_batch-Holds :
      (n : ℕ) (q : EventQueue) (es : List Event)
      → Holds (pending q) es
      → take_batch decode n q ≡ ok (entries (take n (pending q)) (take n es))
  unfolding take_batch
  take_batch-Holds n q es h =
      decode_rows-Holds (take n (pending q)) (take n es) (Holds-take n (pending q) es h)

  pub enqueue-Holds :
      (encode : Event → Bytes) (now : ℤ) (e : Event) (q : EventQueue) (es : List Event)
      → decode (encode e) ≡ some e
      → Holds (pending q) es
      → Holds (pending (enqueue encode now e q).1) (es ++ e ∷ [])
  unfolding enqueue
  enqueue-Holds encode now e q es trip h =
      rw (filter-append is_unsent q.rows _) (Holds-append (pending q) _ es (e ∷ []) h (trip, tt))

  -- A tick that meets no fault.
  abbrev pub working : ℤ → Conditions
  working now = record { read_fails = false; closed = false; mark_fails = false; now = now }

  pub drain_once-empty :
      (now : ℤ) (u : Uploader Event)
      → Holds (pending u.queue) []
      → drain_once decode (working now) u ≡ (ok tt, u)
  unfolding drain_once
  drain_once-empty now u h = rw (
    take_batch-Holds batch_limit u.queue [] h,
    entries-none (take batch_limit (pending u.queue))
        (Holds-take batch_limit (pending u.queue) [] h),
  )

  pub drain_once-sends :
      (now : ℤ) (u : Uploader Event) (e : Event) (es : List Event)
      → IsValid u.queue
      → Holds (pending u.queue) (e ∷ es)
      → (v : Uploader Event) × (drain_once decode (working now) u ≡ (ok tt, v))
        × (v.sent ≡ u.sent ++ take batch_limit (e ∷ es) ∷ [])
        × Holds (pending v.queue) (drop batch_limit (e ∷ es))
        × IsValid v.queue
  unfolding drain_once
  drain_once-sends now u e es valid h =
      let rs = take batch_limit (pending u.queue) in
      let some_rows = Holds-take batch_limit (pending u.queue) (e ∷ es) h in
      (
        record {
          queue = mark_sent now (ids_of rs) u.queue;
          sent = u.sent ++ take batch_limit (e ∷ es) ∷ [];
        },
        rw (
          take_batch-Holds batch_limit u.queue (e ∷ es) h,
          entries-not_empty rs e (take 49 es) some_rows,
          events-entries rs (take batch_limit (e ∷ es)) some_rows,
          ids-entries rs (take batch_limit (e ∷ es)) some_rows,
        ),
        refl,
        rw (pending-mark_sent now batch_limit u.queue valid)
            (Holds-drop batch_limit (pending u.queue) (e ∷ es) h),
        mark_sent-IsValid now (ids_of rs) u.queue valid,
      )

  all_sent : (rs : List Row) → Holds rs [] → rs ≡ []
  all_sent [] h = refl
  all_sent (r ∷ rs) h = absurd h

  run_ticks-ok :
      (c : Conditions) (cs : List Conditions) (u v : Uploader Event)
      → drain_once decode c u ≡ (ok tt, v)
      → run_ticks decode (c ∷ cs) u ≡ run_ticks decode cs v
  unfolding run_ticks
  run_ticks-ok c cs u v e = rw (run_ticks, e, ap (λ r. r.1) e)

  -- A batch at the end of what was sent, and the events behind it.
  sent-regroup :
      (sent : List (List Event)) (n : ℕ) (es : List Event)
      → concat (sent ++ take n es ∷ []) ++ drop n es ≡ concat sent ++ es
  sent-regroup sent n es = rw (
    concat-snoc sent (take n es),
    append_assoc (concat sent) (take n es) (drop n es),
    take-drop n es,
  )

  -- Ticks without a fault, as many as the waiting events fill batches, send all of these events, in
  -- their order and once each, and leave none waiting. The keys of the queue rise, and its payloads
  -- decode.
  pub run_ticks-delivers :
      (nows : List ℤ) (u : Uploader Event) (es : List Event)
      → IsValid u.queue
      → Holds (pending u.queue) es
      → length es ≤ batch_limit * length nows
      → (concat (run_ticks decode (map working nows) u).sent ≡ concat u.sent ++ es)
        × (pending (run_ticks decode (map working nows) u).queue ≡ [])
  unfolding run_ticks
  run_ticks-delivers [] u [] valid h room =
      (sym (append-nil (concat u.sent)), all_sent (pending u.queue) h)
  run_ticks-delivers [] u (e ∷ es) valid h room = absurd (omega (arith, room))
  run_ticks-delivers (now ∷ nows) u [] valid h room =
      rw (run_ticks-ok (working now) (map working nows) u u (drain_once-empty now u h))
        (run_ticks-delivers nows u [] valid h (omega arith))
  run_ticks-delivers (now ∷ nows) u (e ∷ es) valid h room =
      let (v, done, sent, left, v_valid) = drain_once-sends now u e es valid h in
      let rest =
        run_ticks-delivers nows v (drop batch_limit (e ∷ es)) v_valid left
          (omega (arith, room, length-drop batch_limit (e ∷ es))) in
      rw (run_ticks-ok (working now) (map working nows) u v done)
        (rest.0 ∙ rw sent (sent-regroup u.sent batch_limit (e ∷ es)), rest.1)

  -- A tick changes nothing, or sends the first batch of the waiting events and either leaves the queue
  -- as it is or keeps waiting just the events behind that batch, whatever fault it meets. The keys of
  -- the queue rise, and its payloads decode.
  pub drain_once-keeps :
      (c : Conditions) (u : Uploader Event) (es : List Event)
      → IsValid u.queue
      → Holds (pending u.queue) es
      → ((drain_once decode c u).1 ≡ u)
        ⊎ (((drain_once decode c u).1.sent ≡ u.sent ++ take batch_limit es ∷ [])
            × (((drain_once decode c u).1.queue ≡ u.queue)
                ⊎ Holds (pending (drain_once decode c u).1.queue) (drop batch_limit es)))
  unfolding drain_once
  drain_once-keeps c u [] valid h =
      let batch = take_batch-Holds batch_limit u.queue [] h in
      let nothing =
        entries-none (take batch_limit (pending u.queue))
          (Holds-take batch_limit (pending u.queue) [] h) in
      elim (Bool-cases c.read_fails) [ inl r ↦ inl (rw r) | inr r ↦ inl (rw (r, batch, nothing)) ]
  drain_once-keeps c u (e ∷ es) valid h =
      let rs = take batch_limit (pending u.queue) in
      let xs = take batch_limit (e ∷ es) in
      let k = Holds-take batch_limit (pending u.queue) (e ∷ es) h in
      let batch = take_batch-Holds batch_limit u.queue (e ∷ es) h in
      let full = entries-not_empty rs e (take 49 es) k in
      elim (Bool-cases c.read_fails) [
        | inl r ↦ inl (rw r)
        | inr r ↦ elim (Bool-cases c.closed) [
          | inl s ↦ inl (rw (r, batch, full, s))
          | inr s ↦ elim (Bool-cases c.mark_fails) [
            | inl m ↦
                inr (
                  rw (r, batch, full, s, m, events-entries rs xs k),
                  inl (rw (r, batch, full, s, m)),
                )
            | inr m ↦ inr (
              rw (r, batch, full, s, m, events-entries rs xs k),
              inr (
                  rw
                    (
                      r,
                      batch,
                      full,
                      s,
                      m,
                      ids-entries rs xs k,
                      pending-mark_sent c.now batch_limit u.queue valid,
                    )
                    (Holds-drop batch_limit (pending u.queue) (e ∷ es) h)),
            )
          ]
        ]
      ]
