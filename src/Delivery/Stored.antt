-- ===== src/Delivery/Stored.antt =====
-- grpc.rs, `insert_event_batch`: a batch that is stored, under whichever faults.
use scrooge_dlp.Common.{
  ℕ, Bool, true, false, none, some, List, [], ◌∷◌, ◌++◌, ◌+◌, ◌≤◌, ◌≡◌, refl, sym, ap, ◌∙◌, arith,
  subst, ◌⊎◌, inl, inr, any, Bool-cases, if◌then◌else◌, ◌==◌, ◌&&◌, ==_iff,
}
use scrooge_dlp.Common.Int.{ℤ, pos, negsuc}
use scrooge_dlp.Common.Member.{In, In-append_cases}
use scrooge_dlp.Manager.World.{Uuid}
use scrooge_dlp.Manager.Details.{Event}
use scrooge_dlp.Manager.Events.{
  EventRow, Sources, eqb_time, same_key, insert_row, event_row, event_id_or_new, insert_events,
  commit, insert_event_batch,
}
use scrooge_dlp.Manager.Events.Resend.{stored, AllStored, stored-AllStored}

-- The number of the rows that pass a test.
abbrev pub count : (EventRow → Bool) → List EventRow → ℕ
count p [] = 0
count p (r ∷ t) = if p r then count p t + 1 else count p t

-- No two rows have the same key.
abbrev pub Keyed : List EventRow → Type 0
Keyed t = (r : EventRow) → count (same_key r) t ≤ 1

count-append :
    (p : EventRow → Bool) (t : List EventRow) (r : EventRow)
    → count p (t ++ r ∷ []) ≡ count p t + (if p r then 1 else 0)
count-append p [] r = ground arith
count-append p (x ∷ t) r = ground (arith, count-append p t r)

count-none : (p : EventRow → Bool) (t : List EventRow) → any p t ≡ false → count p t ≡ 0
count-none p [] h = refl
count-none p (x ∷ t) h = ground (arith, count-none p t)

pub count-any : (p : EventRow → Bool) (t : List EventRow) → any p t ≡ true → 1 ≤ count p t
count-any p [] h = absurd (cc h)
count-any p (x ∷ t) h = ground (arith, count-any p t)

eqb_time-eq : (a b : ℤ) → eqb_time a b ≡ true → a ≡ b
eqb_time-eq (pos a) (pos b) h = ap pos ((==_iff a b).0 h)
eqb_time-eq (pos a) (negsuc b) h = absurd (cc h)
eqb_time-eq (negsuc a) (pos b) h = absurd (cc h)
eqb_time-eq (negsuc a) (negsuc b) h = ap negsuc ((==_iff a b).0 h)

&&-true : (a b : Bool) → (a && b) ≡ true → (a ≡ true) × (b ≡ true)
&&-true a b h = ground arith

-- Two rows of one key have it in common with the same rows.
same_key-eq : (r s x : EventRow) → same_key r s ≡ true → same_key r x ≡ same_key s x
same_key-eq r s x h =
    let (i, t) = &&-true _ _ h in
    ap (λ n. n == x.id && eqb_time r.timestamp x.timestamp) ((==_iff r.id s.id).0 i)
    ∙ ap (λ a. s.id == x.id && eqb_time a x.timestamp) (eqb_time-eq r.timestamp s.timestamp t)

count-same_key :
    (r s : EventRow) (t : List EventRow)
    → same_key r s ≡ true
    → count (same_key r) t ≡ count (same_key s) t
count-same_key r s [] h = refl
count-same_key r s (x ∷ t) h = rw (same_key-eq r s x h, count-same_key r s t h)

count-absent :
    (r s : EventRow) (t : List EventRow)
    → any (same_key r) t ≡ false
    → count (same_key s) t ≤ 1
    → count (same_key s) (t ++ r ∷ []) ≤ 1
count-absent r s t e k = elim (Bool-cases (same_key s r)) [
  | inl b ↦
      rw (count-append (same_key s) t r, b)
        (omega (arith, count-same_key s r t b, count-none (same_key r) t e))
  | inr b ↦ rw (count-append (same_key s) t r, b) (omega (arith, k))
]

insert_row-Keyed : (r : EventRow) (t : List EventRow) → Keyed t → Keyed (insert_row r t).1
insert_row-Keyed r t k s = elim (Bool-cases (any (same_key r) t)) [
  | inl e ↦ rw e (k s)
  | inr e ↦ rw e (count-absent r s t e (k s))
]

module _ (sources : Sources) (agent : Uuid) where
  -- The row of an event that bears a valid identity, at any place of a batch.
  abbrev pub row : Event → EventRow
  row e = event_row sources agent 0 e

  pub event_row-row :
      (n : ℕ) (e : Event) (id : Uuid)
      → sources.parse_uuid e.event_id ≡ some id
      → event_row sources agent n e ≡ row e
  unfolding event_row
  event_row-row n e id h =
      let same : event_id_or_new sources agent n e ≡ event_id_or_new sources agent 0 e =
        rw (event_id_or_new, h) in
      ap (λ i. record (event_row sources agent 0 e) { id = i }) same

  -- The table holds the event.
  abbrev pub Has : Event → List EventRow → Type 0
  Has e t = any (same_key (row e)) t ≡ true

  insert_events-stored :
      (n : ℕ) (evs : List Event) (fs : List Bool) (t : List EventRow)
      → (insert_events sources agent n evs fs t ≡ none)
        ⊎ ((k : ℕ) × (fs' : List Bool) × (insert_events sources agent n evs fs t
              ≡ some (k, stored sources agent n evs t, fs')))
  unfolding insert_events stored
  insert_events-stored n [] fs t = inr (0, fs, refl)
  insert_events-stored n (ev ∷ evs) (true ∷ fs) t = inl refl
  insert_events-stored n (ev ∷ evs) (false ∷ fs) t =
      elim (insert_events-stored (n + 1) evs fs (insert_row (event_row sources agent n ev) t).1) [
        | inl e ↦ inl (rw e)
        | inr (k, fs', e) ↦ inr ((insert_row (event_row sources agent n ev) t).0 + k, fs', rw e)
      ]
  insert_events-stored n (ev ∷ evs) [] t =
      elim (insert_events-stored (n + 1) evs [] (insert_row (event_row sources agent n ev) t).1) [
        | inl e ↦ inl (rw e)
        | inr (k, fs', e) ↦ inr ((insert_row (event_row sources agent n ev) t).0 + k, fs', rw e)
      ]

  commit-stored :
      (k n : ℕ) (t t' : List EventRow) (fs : List Bool)
      → (commit sources agent (some (k, t', fs)) t).0 ≡ some n
      → (commit sources agent (some (k, t', fs)) t).1 ≡ t'
  commit-stored k n t t' [] h = refl
  commit-stored k n t t' (true ∷ fs) h = absurd (cc h)
  commit-stored k n t t' (false ∷ fs) h = refl

  answer-stored :
      (evs : List Event) (fs : List Bool) (n : ℕ) (t : List EventRow)
      → (commit sources agent (insert_events sources agent 0 evs fs t) t).0 ≡ some n
      → (commit sources agent (insert_events sources agent 0 evs fs t) t).1
        ≡ stored sources agent 0 evs t
  answer-stored evs fs n t h = elim (insert_events-stored 0 evs fs t) [
    | inl e ↦ absurd (cc (rw e at h))
    | inr (k, fs', e) ↦ rw e (commit-stored k n t _ fs' (rw e at h))
  ]

  -- A batch whose transaction succeeds is stored whole.
  pub insert_event_batch-stored :
      (evs : List Event) (fs : List Bool) (n : ℕ) (t : List EventRow)
      → (insert_event_batch sources agent evs fs t).0 ≡ some n
      → (insert_event_batch sources agent evs fs t).1 ≡ stored sources agent 0 evs t
  unfolding insert_event_batch
  insert_event_batch-stored evs [] n t h = answer-stored evs [] n t h
  insert_event_batch-stored evs (true ∷ fs) n t h = absurd (cc h)
  insert_event_batch-stored evs (false ∷ fs) n t h = answer-stored evs fs n t h

  pub stored-Keyed :
      (n : ℕ) (evs : List Event) (t : List EventRow)
      → Keyed t
      → Keyed (stored sources agent n evs t)
  unfolding stored
  stored-Keyed n [] t k = k
  stored-Keyed n (ev ∷ evs) t k = stored-Keyed (n + 1) evs _ (insert_row-Keyed _ t k)

  pub AllStored-In :
      (n : ℕ) (evs : List Event) (t : List EventRow) (e : Event) (id : Uuid)
      → AllStored sources agent n evs t
      → sources.parse_uuid e.event_id ≡ some id
      → In e evs
      → Has e t
  AllStored-In n [] t e id h known m = absurd m
  AllStored-In n (ev ∷ evs) t e id h known (inl same) =
      let at_place =
        event_row-row n ev id (subst (λ x. sources.parse_uuid x.event_id ≡ some id) same known) in
      subst (λ x. Has x t) (sym same) (subst (λ r. any (same_key r) t ≡ true) at_place h.0)
  AllStored-In n (ev ∷ evs) t e id h known (inr m) = AllStored-In (n + 1) evs t e id h.1 known m

  -- An event of a batch that is stored is held.
  pub stored-Has :
      (evs : List Event) (t : List EventRow) (e : Event) (id : Uuid)
      → sources.parse_uuid e.event_id ≡ some id
      → In e evs
      → Has e (stored sources agent 0 evs t)
  stored-Has evs t e id known m =
      AllStored-In 0 evs _ e id (stored-AllStored sources agent 0 evs t) known m

  insert_row-In : (r s : EventRow) (t : List EventRow) → In r (insert_row s t).1 → In r t ⊎ (r ≡ s)
  insert_row-In r s t m = elim (Bool-cases (any (same_key s) t)) [
    | inl e ↦ inl (rw e at m)
    | inr e ↦ elim (In-append_cases r t (s ∷ []) (rw e at m)) [
      | inl k ↦ inl k
      | inr k ↦ inr (elim k [ inl same ↦ same | inr n ↦ absurd n ])
    ]
  ]

  -- A row was there, or is the one of an event of the batch.
  pub stored-In :
      (n : ℕ) (evs : List Event) (t : List EventRow) (r : EventRow)
      → ((e : Event) → In e evs → (id : Uuid) × (sources.parse_uuid e.event_id ≡ some id))
      → In r (stored sources agent n evs t)
      → In r t ⊎ ((e : Event) × In e evs × (r ≡ row e))
  unfolding stored
  stored-In n [] t r known m = inl m
  stored-In n (ev ∷ evs) t r known m =
      elim (stored-In (n + 1) evs (insert_row (event_row sources agent n ev) t).1 r
        (λ e k. known e (inr k)) m) [
          | inl k ↦ elim (insert_row-In r (event_row sources agent n ev) t k) [
            | inl old ↦ inl old
            | inr new ↦ inr (
              ev,
              inl refl,
              new ∙ event_row-row n ev (known ev (inl refl)).0 (known ev (inl refl)).1,
            )
          ]
          | inr (e, k, same) ↦ inr (e, inr k, same)
        ]
