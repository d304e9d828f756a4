-- ===== src/Manager/Events/Pages.antt =====
-- events.rs, `list`: what a page holds.
use scrooge_dlp.Common.{
  suc, String, Bool, true, false, not, Option, none, some, List, [], ◌∷◌, ◌≤◌, ◌≡◌, refl, ap, ◌∙◌,
  arith, ok, filter, length, length-take, take, drop, All, All-map, All-filter_kept, eq_iff,
  Bool-cases, inl, inr, str_eq, ◌==◌,
}
use scrooge_dlp.Common.Int.{ℤ, ltb_ℤ, ◌≤ℤ◌}
use scrooge_dlp.Common.Member.{In}
use scrooge_dlp.Common.Sort.{sort_by, Sorted, sort_by-Sorted, All-sort_by, count-sort_by}
use Prim.Native.Nat.{min}
use scrooge_dlp.Manager.World.{Uuid}
use scrooge_dlp.Manager.Api.{Claims}
use scrooge_dlp.Manager.Events.{EventRow}
use scrooge_dlp.Manager.Events.Listing.{
  EventQuery, fits, is_later, list, unwrap_or, check_severity, where_some,
}

-- A row is one that the query asks for: it has the agent, the severity and the type that the query
-- names, and lies within its times.
pub record Matches (q : EventQuery) (r : EventRow) : Type 0 where
  pub of_agent : (a : Uuid) → q.agent_id ≡ some a → r.agent_id ≡ a
  pub of_severity : (s : String) → q.severity ≡ some s → r.severity ≡ s
  pub of_type : (t : String) → q.event_type ≡ some t → r.event_type ≡ t
  pub not_before : (t : ℤ) → q.since ≡ some t → t ≤ℤ r.timestamp
  pub not_after : (t : ℤ) → q.until ≡ some t → r.timestamp ≤ℤ t

-- Times that do not increase.
abbrev pub NewestFirst : List EventRow → Type 0
NewestFirst [] = Unit
NewestFirst (r ∷ rs) = All (λ s. s.timestamp ≤ℤ r.timestamp) rs × NewestFirst rs

where_some-true :
    {A : Type 0} (o : Option A) (p : A → Bool)
    → ((a : A) → o ≡ some a → p a ≡ true)
    → where_some o p ≡ true
where_some-true none p h = refl
where_some-true (some a) p h = h a refl

module _ (q : EventQuery) (r : EventRow) where
  fits-Matches : fits q r ≡ true → Matches q r
  fits-Matches h = record {
    of_agent = λ a e. ground (arith, e, h);
    of_severity = λ s e. (eq_iff r.severity s).0 (ground (arith, e, h));
    of_type = λ t e. (eq_iff r.event_type t).0 (ground (arith, e, h));
    not_before = λ t e. ground (arith, e, h);
    not_after = λ t e. ground (arith, e, h);
  }

  Matches-fits : Matches q r → fits q r ≡ true
  Matches-fits m =
      let agent =
        where_some-true q.agent_id (λ a. r.agent_id == a)
          (λ a e. let same = m.of_agent a e in ground (arith, same)) in
      let severity =
        where_some-true q.severity (λ s. str_eq r.severity s)
          (λ s e. (eq_iff r.severity s).1 (m.of_severity s e)) in
      let event_type =
        where_some-true q.event_type (λ t. str_eq r.event_type t)
          (λ t e. (eq_iff r.event_type t).1 (m.of_type t e)) in
      let since =
        where_some-true q.since (λ t. not (ltb_ℤ r.timestamp t))
          (λ t e. let late = m.not_before t e in ground (arith, late)) in
      let until =
        where_some-true q.until (λ t. not (ltb_ℤ t r.timestamp))
          (λ t e. let early = m.not_after t e in ground (arith, early)) in
      rw (agent, severity, event_type, since, until)

-- A test that only rows of the query pass counts alike before and after the query.
count-fits :
    (q : EventQuery) (p : EventRow → Bool)
    → ((r : EventRow) → p r ≡ true → Matches q r)
    → (rows : List EventRow) → length (filter p (filter (fits q) rows)) ≡ length (filter p rows)
count-fits q p only [] = refl
count-fits q p only (r ∷ rows) = elim (Bool-cases (p r)) [
  | inl e ↦
      let kept = Matches-fits q r (only r e) in rw (kept, e) (ap suc (count-fits q p only rows))
  | inr e ↦ elim (Bool-cases (fits q r)) [
    | inl f ↦ rw (f, e) (count-fits q p only rows)
    | inr f ↦ rw (f, e) (count-fits q p only rows)
  ]
]

All-In :
    (rows table : List EventRow)
    → ((r : EventRow) → In r rows → In r table)
    → All (λ r. In r table) rows
All-In [] table h = tt
All-In (r ∷ rows) table h = (h r (inl refl), All-In rows table (λ x k. h x (inr k)))

is_later_irreflexive : (r : EventRow) → is_later r r ≡ false
is_later_irreflexive r = ground arith

is_later_law :
    (x y z : EventRow) → is_later x y ≡ true → is_later z y ≡ false → is_later z x ≡ false
is_later_law x y z h k = ground (arith, h, k)

Sorted-NewestFirst : (rows : List EventRow) → Sorted is_later rows → NewestFirst rows
Sorted-NewestFirst [] h = tt
Sorted-NewestFirst (r ∷ rows) h =
    (All-map _ _ (λ s k. ground (arith, k)) rows h.0, Sorted-NewestFirst rows h.1)

module _ (q : EventQuery) (table : List EventRow) where
  -- All that the query asks for, in the order of the answer.
  abbrev all_rows : List EventRow
  all_rows = sort_by is_later (filter (fits q) table)

  -- An administrator's query with no severity or a known one is answered, where the database answers,
  -- by a page of the events that the query asks for, the newest first: such rows of the table and no
  -- others, each as often as the table holds it, are put in order of time, and of these the page holds
  -- those past the offset, up to the limit of the query (100 where it has none) and up to 1000.
  pub list-page :
      (claims : Claims)
      → claims.role ≡ "admin"
      → check_severity q.severity ≡ ok tt
      → (asked : List EventRow) × (list claims q false table
          ≡ ok (take (min (unwrap_or q.limit 100) 1000) (drop (unwrap_or q.offset 0) asked)))
        × NewestFirst asked
        × All (λ r. Matches q r × In r table) asked
        × ((p : EventRow → Bool)
            → ((r : EventRow) → p r ≡ true → Matches q r)
            → length (filter p asked) ≡ length (filter p table))
        × (length (take (min (unwrap_or q.limit 100) 1000) (drop (unwrap_or q.offset 0) asked))
            ≤ 1000)
  unfolding list
  list-page claims admin severity = (
    all_rows,
    rw (admin, severity),
    Sorted-NewestFirst all_rows
        (sort_by-Sorted is_later is_later_irreflexive is_later_law (filter (fits q) table)),
    All-sort_by is_later (λ r. Matches q r × In r table) _
        (All-filter_kept (λ r. In r table) _ (fits q) table (λ r e k. (fits-Matches q r e, k))
          (All-In table table (λ r k. k))),
    (λ p only. count-sort_by is_later p (filter (fits q) table) ∙ count-fits q p only table),
    (let long =
          length-take (min (unwrap_or q.limit 100) 1000) (drop (unwrap_or q.offset 0) all_rows) in
        omega (arith, long)),
  )
