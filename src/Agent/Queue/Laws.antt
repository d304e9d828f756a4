-- ===== src/Agent/Queue/Laws.antt =====
-- queue.rs: the keys of the table rise, and marking a batch as sent takes just that batch away.
use scrooge_dlp.Common.{
  ℕ, suc, zero, Bool, true, false, not, none, some, List, [], ◌∷◌, ◌++◌, ◌+◌, ◌≤◌, ◌≡◌, refl, sym,
  ap, ◌∙◌, arith, if◌then◌else◌, Bool-cases, Option-cases, inl, inr, is_empty, filter, map, take,
  drop,
}
use scrooge_dlp.Common.Int.{ℤ}
use scrooge_dlp.Agent.Queue.{
  Bytes, Row, EventQueue, is_unsent, pending, enqueue, contains, mark_rows, mark_sent, is_old,
  purge_sent_older_than,
}

-- The keys rise from `lo` on and stay below `hi`.
abbrev pub Rising : ℕ → ℕ → List Row → Type 0
Rising lo hi [] = lo ≤ hi
Rising lo hi (r ∷ rs) = (lo ≤ r.id) × Rising (suc r.id) hi rs

-- The table of a queue that was opened empty and changed by its operations only.
abbrev pub IsValid : EventQueue → Type 0
IsValid q = Rising 0 q.next_id q.rows

abbrev pub ids_of : List Row → List ℕ
ids_of rs = map (λ r. r.id) rs

Rising-weaken : (lo lo' hi : ℕ) (rs : List Row) → lo' ≤ lo → Rising lo hi rs → Rising lo' hi rs
Rising-weaken lo lo' hi [] h r = omega arith
Rising-weaken lo lo' hi (x ∷ rs) h r = (omega (arith, h, r.0), r.1)

Rising-append :
    (lo hi : ℕ) (rs : List Row) (r : Row)
    → r.id ≡ hi
    → Rising lo hi rs
    → Rising lo (hi + 1) (rs ++ r ∷ [])
Rising-append lo hi [] r e h = (omega arith, omega arith)
Rising-append lo hi (x ∷ rs) r e h = (h.0, Rising-append (suc x.id) hi rs r e h.1)

Rising-le : (lo hi : ℕ) (rs : List Row) → Rising lo hi rs → lo ≤ hi
Rising-le lo hi [] h = h
Rising-le lo hi (x ∷ rs) h = omega (arith, h.0, Rising-le (suc x.id) hi rs h.1)

Rising-filter :
    (p : Row → Bool) (lo hi : ℕ) (rs : List Row) → Rising lo hi rs → Rising lo hi (filter p rs)
Rising-filter p lo hi [] h = h
Rising-filter p lo hi (x ∷ rs) h =
    let rest = Rising-filter p (suc x.id) hi rs h.1 in
    elim (Bool-cases (p x)) [
      | inl e ↦ rw e (h.0, rest)
      | inr e ↦ rw e (Rising-weaken (suc x.id) lo hi (filter p rs) (omega (arith, h.0)) rest)
    ]

Rising-mark :
    (now : ℤ) (p : ℕ → Bool) (lo hi : ℕ) (rs : List Row)
    → Rising lo hi rs
    → Rising lo hi (mark_rows now p rs)
Rising-mark now p lo hi [] h = h
Rising-mark now p lo hi (x ∷ rs) h =
    let rest = Rising-mark now p (suc x.id) hi rs h.1 in
    elim (Bool-cases (p x.id)) [ inl e ↦ rw e (h.0, rest) | inr e ↦ rw e (h.0, rest) ]

pub enqueue-IsValid :
    {Event : Type 0} (encode : Event → Bytes) (now : ℤ) (e : Event) (q : EventQueue)
    → IsValid q
    → IsValid (enqueue encode now e q).1
unfolding enqueue
enqueue-IsValid encode now e q h = Rising-append 0 q.next_id q.rows _ refl h

pub mark_sent-IsValid :
    (now : ℤ) (ids : List ℕ) (q : EventQueue) → IsValid q → IsValid (mark_sent now ids q)
unfolding mark_sent
mark_sent-IsValid now [] q h = h
mark_sent-IsValid now (n ∷ ids) q h =
    Rising-mark now (λ i. contains i (n ∷ ids)) 0 q.next_id q.rows h

pub purge-IsValid :
    (cutoff : ℤ) (q : EventQueue) → IsValid q → IsValid (purge_sent_older_than cutoff q).1
unfolding purge_sent_older_than
purge-IsValid cutoff q h = Rising-filter (λ r. not (is_old cutoff r)) 0 q.next_id q.rows h

module _ (now : ℤ) (p : ℕ → Bool) (x : Row) (rs : List Row) where
  mark-sent_row :
      (t : ℤ)
      → x.sent_at ≡ some t
      → filter is_unsent (mark_rows now p (x ∷ rs)) ≡ filter is_unsent (mark_rows now p rs)
  mark-sent_row t e = elim (Bool-cases (p x.id)) [ inl y ↦ rw y | inr y ↦ rw (y, e) ]

  mark-kept_row :
      x.sent_at ≡ none
      → p x.id ≡ false
      → filter is_unsent (mark_rows now p (x ∷ rs)) ≡ x ∷ filter is_unsent (mark_rows now p rs)
  mark-kept_row e y = rw (y, e)

  mark-taken_row :
      p x.id ≡ true
      → filter is_unsent (mark_rows now p (x ∷ rs)) ≡ filter is_unsent (mark_rows now p rs)
  mark-taken_row y = rw y

contains-above : (i n : ℕ) (ns : List ℕ) → suc n ≤ i → contains i (n ∷ ns) ≡ contains i ns
contains-above i n ns h = ground arith

contains_self : (n : ℕ) (ns : List ℕ) → contains n (n ∷ ns) ≡ true
contains_self n ns = ground arith

-- What `p` says of the keys is what the first `n` of the waiting rows say.
abbrev pub Marks : (ℕ → Bool) → ℕ → ℕ → List Row → Type 0
Marks p lo n rs = (i : ℕ) → lo ≤ i → p i ≡ contains i (ids_of (take n (filter is_unsent rs)))

module _ (x : Row) (rs : List Row) where
  pending-sent : (t : ℤ) → x.sent_at ≡ some t → filter is_unsent (x ∷ rs) ≡ filter is_unsent rs
  pending-sent t e = rw e

  pub pending-unsent : x.sent_at ≡ none → filter is_unsent (x ∷ rs) ≡ x ∷ filter is_unsent rs
  pending-unsent e = rw e

  module _ (p : ℕ → Bool) (lo n : ℕ) (room : lo ≤ x.id) where
    Marks-sent : (t : ℤ) → x.sent_at ≡ some t → Marks p lo n (x ∷ rs) → Marks p (suc x.id) n rs
    Marks-sent t e agree i l = agree i (omega (arith, l, room)) ∙ rw (pending-sent t e)

    Marks-unsent : x.sent_at ≡ none → Marks p lo (suc n) (x ∷ rs) → Marks p (suc x.id) n rs
    Marks-unsent e agree i l =
        agree i (omega (arith, l, room))
        ∙ rw (pending-unsent e) (contains-above i x.id (ids_of (take n (filter is_unsent rs))) l)

    Marks-head : x.sent_at ≡ none → Marks p lo (suc n) (x ∷ rs) → p x.id ≡ true
    Marks-head e agree =
        agree x.id room
        ∙ rw (pending-unsent e) (contains_self x.id (ids_of (take n (filter is_unsent rs))))

-- The rows that wait after a mark on the first `n` of them.
pending-mark :
    (now : ℤ) (p : ℕ → Bool) (lo hi n : ℕ) (rs : List Row)
    → Rising lo hi rs
    → Marks p lo n rs
    → filter is_unsent (mark_rows now p rs) ≡ drop n (filter is_unsent rs)
pending-mark now p lo hi zero [] h agree = refl
pending-mark now p lo hi (suc n) [] h agree = refl
pending-mark now p lo hi zero (x ∷ rs) h agree =
    let rest =
      pending-mark now p (suc x.id) hi zero rs h.1 (λ i l. agree i (omega (arith, l, h.0))) in
    elim (Option-cases x.sent_at) [
      | inl e ↦ rw (mark-kept_row now p x rs e (agree x.id h.0), rest, pending-unsent x rs e)
      | inr (t, e) ↦ rw (mark-sent_row now p x rs t e, rest, pending-sent x rs t e)
    ]
pending-mark now p lo hi (suc n) (x ∷ rs) h agree = elim (Option-cases x.sent_at) [
  | inl e ↦
      mark-taken_row now p x rs (Marks-head x rs p lo n h.0 e agree)
      ∙ pending-mark now p (suc x.id) hi n rs h.1 (Marks-unsent x rs p lo n h.0 e agree)
      ∙ rw (pending-unsent x rs e)
  | inr (t, e) ↦
      mark-sent_row now p x rs t e
      ∙ pending-mark now p (suc x.id) hi (suc n) rs h.1 (Marks-sent x rs p lo (suc n) h.0 t e agree)
      ∙ rw (pending-sent x rs t e)
]

mark_rows-none : (now : ℤ) (rs : List Row) → mark_rows now (λ n. false) rs ≡ rs
mark_rows-none now [] = refl
mark_rows-none now (x ∷ rs) = ap (λ xs. x ∷ xs) (mark_rows-none now rs)

-- In a queue whose keys rise, marking the first `limit` waiting rows as sent leaves exactly the
-- others waiting, in their order.
pub pending-mark_sent :
    (now : ℤ) (limit : ℕ) (q : EventQueue)
    → IsValid q
    → pending (mark_sent now (ids_of (take limit (pending q))) q) ≡ drop limit (pending q)
unfolding mark_sent
pending-mark_sent now limit q h = by_ids (ids_of (take limit (pending q))) refl
  where
    marked :
        filter is_unsent (mark_rows now (λ i. contains i (ids_of (take limit (pending q)))) q.rows)
        ≡ drop limit (pending q)
    marked =
        pending-mark now (λ i. contains i (ids_of (take limit (pending q)))) 0 q.next_id limit
          q.rows h (λ i l. refl)

    by_ids :
        (ids : List ℕ)
        → ids_of (take limit (pending q)) ≡ ids
        → pending (
            if is_empty ids
            then q
            else record q { rows = mark_rows now (λ n. contains n ids) q.rows })
          ≡ drop limit (pending q)
    by_ids [] e = sym (ap (filter is_unsent) (mark_rows-none now q.rows)) ∙ (rw e at marked)
    by_ids (n ∷ ids) e = (rw e at marked)
