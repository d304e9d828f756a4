-- ===== src/Delivery/Queued.antt =====
-- queue.rs, event_uploader.rs: what waits in the queue after each step, as a list of events.
use scrooge_dlp.Common.{
  Option, List, [], ◌∷◌, ◌++◌, sym, subst, Outcome-cases, ◌⊎◌, inl, inr, Bool-cases, map, concat,
  concat-snoc, take, drop, is_empty,
}
use scrooge_dlp.Common.Member.{
  In, In-append_left, In-append_right, In-append_cases, In-take, In-drop, In-take-drop,
}
use scrooge_dlp.Agent.Queue.{Bytes, pending, take_batch}
use scrooge_dlp.Agent.Queue.Laws.{IsValid, mark_sent-IsValid}
use scrooge_dlp.Agent.Uploader.{batch_limit, Conditions, Uploader, drain_once}
use scrooge_dlp.Agent.Uploader.Laws.{Holds, drain_once-keeps}

module _ {Event : Type 0} where
  -- Every event of the first list waits or is in a batch of the second.
  abbrev pub Covers : List Event → List (List Event) → Event → Type 0
  Covers es sent e = In e es ⊎ In e (concat sent)

  In-sent :
      (sent : List (List Event)) (xs : List Event) (e : Event)
      → In e (concat sent) ⊎ In e xs
      → In e (concat (sent ++ xs ∷ []))
  In-sent sent xs e (inl m) =
      subst (In e) (sym (concat-snoc sent xs)) (In-append_left e (concat sent) xs m)
  In-sent sent xs e (inr m) =
      subst (In e) (sym (concat-snoc sent xs)) (In-append_right e (concat sent) xs m)

  of_sent :
      (sent : List (List Event)) (xs : List Event) (e : Event)
      → In e (concat (sent ++ xs ∷ []))
      → In e (concat sent) ⊎ In e xs
  of_sent sent xs e m = In-append_cases e (concat sent) xs (subst (In e) (concat-snoc sent xs) m)

module _ {Event : Type 0} (decode : Bytes → Option Event) where
  drain_once-IsValid :
      (c : Conditions) (u : Uploader Event)
      → IsValid u.queue
      → IsValid (drain_once decode c u).1.queue
  unfolding drain_once
  drain_once-IsValid c u h = elim (Bool-cases c.read_fails) [
    | inl r ↦ rw (drain_once, r) h
    | inr r ↦ elim (Outcome-cases (take_batch decode batch_limit u.queue)) [
      | inl (e, t) ↦ rw (drain_once, r, t) h
      | inr (batch, t) ↦ elim (Bool-cases (is_empty batch)) [
        | inl n ↦ rw (drain_once, r, t, n) h
        | inr n ↦ elim (Bool-cases c.closed) [
          | inl s ↦ rw (drain_once, r, t, n, s) h
          | inr s ↦ elim (Bool-cases c.mark_fails) [
            | inl m ↦ rw (drain_once, r, t, n, s, m) h
            | inr m ↦
                rw (drain_once, r, t, n, s, m)
                  (mark_sent-IsValid c.now (map (λ p. p.id) batch) u.queue h)
          ]
        ]
      ]
    ]
  ]

  -- After a tick the same events wait or are in a batch, whatever fault it met.
  pub record Kept (u v : Uploader Event) (es : List Event) : Type 0 where
    pub left : List Event
    pub valid : IsValid v.queue
    pub holds : Holds decode (pending v.queue) left
    pub all_there : (e : Event) → Covers es u.sent e → Covers left v.sent e
    pub none_new : (e : Event) → Covers left v.sent e → Covers es u.sent e

  pub drain_once-Kept :
      (c : Conditions) (u : Uploader Event) (es : List Event)
      → IsValid u.queue
      → Holds decode (pending u.queue) es
      → Kept u (drain_once decode c u).1 es
  drain_once-Kept c u es valid h =
      let valid' = drain_once-IsValid c u valid in
      elim (drain_once-keeps decode c u es valid h) [
        | inl same ↦ record {
          left = es;
          valid = valid';
          holds = subst (λ v. Holds decode (pending v.queue) es) (sym same) h;
          all_there = λ e m. subst (λ v. Covers es v.sent e) (sym same) m;
          none_new = λ e m. subst (λ v. Covers es v.sent e) same m;
        }
        | inr (sent, inl same) ↦ record {
          left = es;
          valid = valid';
          holds = subst (λ q. Holds decode (pending q) es) (sym same) h;
          all_there = λ e m. subst (λ s. Covers es s e) (sym sent) (repeated u.sent es e m);
          none_new = λ e m. not_new u.sent es e (subst (λ s. Covers es s e) sent m);
        }
        | inr (sent, inr rest) ↦ record {
          left = drop batch_limit es;
          valid = valid';
          holds = rest;
          all_there =
              λ e m. subst (λ s. Covers (drop batch_limit es) s e) (sym sent) (moved u.sent es e m);
          none_new =
              λ e m. not_moved u.sent es e (subst (λ s. Covers (drop batch_limit es) s e) sent m);
        }
      ]
    where
      repeated :
          (s : List (List Event)) (es : List Event) (e : Event)
          → Covers es s e
          → Covers es (s ++ take batch_limit es ∷ []) e
      repeated s es e (inl m) = inl m
      repeated s es e (inr m) = inr (In-sent s (take batch_limit es) e (inl m))

      not_new :
          (s : List (List Event)) (es : List Event) (e : Event)
          → Covers es (s ++ take batch_limit es ∷ []) e
          → Covers es s e
      not_new s es e (inl m) = inl m
      not_new s es e (inr m) = elim (of_sent s (take batch_limit es) e m) [
        | inl k ↦ inr k
        | inr k ↦ inl (In-take batch_limit e es k)
      ]

      moved :
          (s : List (List Event)) (es : List Event) (e : Event)
          → Covers es s e
          → Covers (drop batch_limit es) (s ++ take batch_limit es ∷ []) e
      moved s es e (inl m) = elim (In-take-drop batch_limit e es m) [
        | inl k ↦ inr (In-sent s (take batch_limit es) e (inr k))
        | inr k ↦ inl k
      ]
      moved s es e (inr m) = inr (In-sent s (take batch_limit es) e (inl m))

      not_moved :
          (s : List (List Event)) (es : List Event) (e : Event)
          → Covers (drop batch_limit es) (s ++ take batch_limit es ∷ []) e
          → Covers es s e
      not_moved s es e (inl m) = inl (In-drop batch_limit e es m)
      not_moved s es e (inr m) = elim (of_sent s (take batch_limit es) e m) [
        | inl k ↦ inr k
        | inr k ↦ inl (In-take batch_limit e es k)
      ]
