-- ===== src/Manager/Events/Resend.antt =====
-- grpc.rs, `insert_event_batch`: an agent that sends a batch again stores it once.
use scrooge_dlp.Common.{
  ℕ, Bool, true, some, List, [], ◌∷◌, ◌++◌, ◌+◌, ◌≡◌, refl, ap, ◌∙◌, arith, ◌||◌, any, All,
  Bool-cases, inl, inr,
}
use scrooge_dlp.Common.Int.{ℤ, pos, negsuc}
use scrooge_dlp.Manager.World.{Uuid}
use scrooge_dlp.Manager.Details.{Event}
use scrooge_dlp.Manager.Events.{
  EventRow, Sources, eqb_time, same_key, insert_row, event_row, event_id_or_new, insert_events,
  insert_event_batch,
}

same_key_refl : (r : EventRow) → same_key r r ≡ true
same_key_refl r = ground (arith, eqb_time_refl r.timestamp)
  where
    eqb_time_refl : (t : ℤ) → eqb_time t t ≡ true
    eqb_time_refl (pos n) = ground arith
    eqb_time_refl (negsuc n) = ground arith

any-snoc_row :
    (p : EventRow → Bool) (t : List EventRow) (s : EventRow)
    → any p (t ++ s ∷ []) ≡ (any p t || p s)
any-snoc_row p [] s = ground arith
any-snoc_row p (x ∷ t) s = ground (arith, any-snoc_row p t s)

insert_row-keeps :
    (r s : EventRow) (t : List EventRow)
    → any (same_key r) t ≡ true
    → any (same_key r) (insert_row s t).1 ≡ true
insert_row-keeps r s t h = elim (Bool-cases (any (same_key s) t)) [
  | inl e ↦ rw e h
  | inr e ↦ rw e (any-snoc_row (same_key r) t s ∙ rw h)
]

insert_row-holds : (r : EventRow) (t : List EventRow) → any (same_key r) (insert_row r t).1 ≡ true
insert_row-holds r t = elim (Bool-cases (any (same_key r) t)) [
  | inl e ↦ rw e e
  | inr e ↦ rw e (any-snoc_row (same_key r) t r ∙ rw (e, same_key_refl r))
]

insert_row-known :
    (r : EventRow) (t : List EventRow) → any (same_key r) t ≡ true → insert_row r t ≡ (0, t)
insert_row-known r t h = rw (insert_row, h)

module _ (s : Sources) (agent : Uuid) where
  unfoldable pub stored : ℕ → List Event → List EventRow → List EventRow
  stored n [] t = t
  stored n (ev ∷ evs) t = stored (n + 1) evs (insert_row (event_row s agent n ev) t).1

  counted : ℕ → List Event → List EventRow → ℕ
  counted n [] t = 0
  counted n (ev ∷ evs) t =
      (insert_row (event_row s agent n ev) t).0
      + counted (n + 1) evs (insert_row (event_row s agent n ev) t).1

  insert_events-ok :
      (n : ℕ) (evs : List Event) (t : List EventRow)
      → insert_events s agent n evs [] t ≡ some (counted n evs t, stored n evs t, [])
  unfolding insert_events counted stored
  insert_events-ok n [] t = refl
  insert_events-ok n (ev ∷ evs) t =
      rw (insert_events-ok (n + 1) evs (insert_row (event_row s agent n ev) t).1)

  pub stored-keeps :
      (r : EventRow) (n : ℕ) (evs : List Event) (t : List EventRow)
      → any (same_key r) t ≡ true
      → any (same_key r) (stored n evs t) ≡ true
  unfolding stored
  stored-keeps r n [] t h = h
  stored-keeps r n (ev ∷ evs) t h =
      stored-keeps r (n + 1) evs _ (insert_row-keeps r (event_row s agent n ev) t h)

  -- Each event of the batch has its key in the table.
  abbrev pub AllStored : ℕ → List Event → List EventRow → Type 0
  AllStored n [] t = Unit
  AllStored n (ev ∷ evs) t =
      (any (same_key (event_row s agent n ev)) t ≡ true) × AllStored (n + 1) evs t

  pub stored-AllStored :
      (n : ℕ) (evs : List Event) (t : List EventRow) → AllStored n evs (stored n evs t)
  unfolding stored
  stored-AllStored n [] t = tt
  stored-AllStored n (ev ∷ evs) t = (
    stored-keeps (event_row s agent n ev) (n + 1) evs _
        (insert_row-holds (event_row s agent n ev) t),
    stored-AllStored (n + 1) evs _,
  )

  module _ (fresh : ℕ → Uuid) where
    abbrev pub later : Sources
    later = record s { new_v4 = fresh }

    event_row-later :
        (n : ℕ) (ev : Event) (id : Uuid)
        → s.parse_uuid ev.event_id ≡ some id
        → event_row later agent n ev ≡ event_row s agent n ev
    unfolding event_row
    event_row-later n ev id h =
        let same : event_id_or_new later agent n ev ≡ event_id_or_new s agent n ev =
          rw (event_id_or_new, h) in
        ap (λ i. record (event_row s agent n ev) { id = i }) same

    AllStored-repeats :
        (n : ℕ) (evs : List Event) (t : List EventRow)
        → All (λ ev. (id : Uuid) × (s.parse_uuid ev.event_id ≡ some id)) evs
        → AllStored n evs t
        → insert_events later agent n evs [] t ≡ some (0, t, [])
    unfolding insert_events
    AllStored-repeats n [] t known h = refl
    AllStored-repeats n (ev ∷ evs) t known h =
        let row : insert_row (event_row later agent n ev) t ≡ (0, t) =
          ap (λ r. insert_row r t) (event_row-later n ev known.0.0 known.0.1)
          ∙ insert_row-known (event_row s agent n ev) t h.0 in
        rw (ap (λ p. p.1) row) (rw (AllStored-repeats (n + 1) evs t known.1 h.1, ap (λ p. p.0) row))

    -- A batch whose events bear valid identities and that was stored without a fault changes nothing
    -- when it is sent again, and counts no insertion, whatever new identities the second run would
    -- draw.
    pub insert_event_batch_again :
        (evs : List Event) (t : List EventRow)
        → All (λ ev. (id : Uuid) × (s.parse_uuid ev.event_id ≡ some id)) evs
        → (k : ℕ) × (t' : List EventRow) × (insert_event_batch s agent evs [] t ≡ (some k, t'))
          × (insert_event_batch later agent evs [] t' ≡ (some 0, t'))
    unfolding insert_event_batch
    insert_event_batch_again evs t known = (
      counted 0 evs t,
      stored 0 evs t,
      rw (insert_events-ok 0 evs t),
      rw (AllStored-repeats 0 evs (stored 0 evs t) known (stored-AllStored 0 evs t)),
    )
