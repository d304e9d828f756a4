-- ===== src/Manager/Policies/Stored/Rows.antt =====
-- policies.rs: each change of the tables that a handler makes keeps their rows sound.
use scrooge_dlp.Common.{
  ℕ, String, Bool, Option, none, some, [], ◌∷◌, ◌++◌, ◌≡◌, refl, sym, ◌∙◌, Outcome, ok, eq_iff,
  if-intro, find, All-append, All-filter_kept,
}
use scrooge_dlp.Common.Int.{ℤ}
use scrooge_dlp.Manager.World.{Uuid, World, PolicyRow, HistoryRow}
use scrooge_dlp.Manager.Api.{ApiError}
use scrooge_dlp.Manager.Policies.{
  Parsed, is_named, insert_policy, insert_history, update_policy, drop_policy, change_row, is_some,
  find_policy, enqueue_push,
}
use scrooge_dlp.Manager.Policies.Update.{enqueue_push-policies, enqueue_push-history}
use scrooge_dlp.Manager.Policies.Stored.{
  IsCompiled, IsDocument, Stored, update_where-KeyedByName, append-KeyedByName, filter-KeyedByName,
  All-update_where,
}

module _ (parse : String → Outcome ApiError Parsed) where
  -- Only the policies and their history matter.
  pub Stored-same :
      (w w' : World)
      → w'.policies ≡ w.policies
      → w'.history ≡ w.history
      → Stored parse w
      → Stored parse w'
  Stored-same w w' rows past s = record {
    keyed = rw rows s.keyed;
    compiled = rw rows s.compiled;
    documents = rw past s.documents;
  }

  pub enqueue_push-Stored :
      (room : Option ℕ) (name : Option String) (w : World)
      → Stored parse w
      → Stored parse (enqueue_push room name w)
  enqueue_push-Stored room name w =
      Stored-same w (enqueue_push room name w) (enqueue_push-policies room name w)
        (enqueue_push-history room name w)

  pub insert_history-Stored :
      (h : HistoryRow) (w : World)
      → IsDocument parse h
      → Stored parse w
      → Stored parse (insert_history h w)
  insert_history-Stored h w d s = record {
    keyed = s.keyed;
    compiled = s.compiled;
    documents = All-append _ w.history (h ∷ []) s.documents (d, tt);
  }

  pub insert_policy-Stored :
      (r : PolicyRow) (w w' : World) (a : Unit {0})
      → IsCompiled parse r
      → Stored parse w
      → insert_policy r w ≡ some (a, w')
      → Stored parse w'
  insert_policy-Stored r w w' a c s e = by_row (find (is_named r.name) w.policies) refl e
    where
      by_row :
          (o : Option PolicyRow)
          → find (is_named r.name) w.policies ≡ o
          → (elim o as (λ x. Option (Unit {0} × World)) [
            | some x ↦ none
            | none ↦ some (tt, record w { policies = w.policies ++ r ∷ [] })
          ])
            ≡ some (a, w')
          → Stored parse w'
      by_row (some x) h k = absurd (cc k)
      by_row none free k =
          let rows : w'.policies ≡ w.policies ++ r ∷ [] = cc k in
          let past : w'.history ≡ w.history = cc k in
          record {
            keyed = rw rows (append-KeyedByName w.policies r free s.keyed);
            compiled = rw rows (All-append _ w.policies (r ∷ []) s.compiled (c, tt));
            documents = rw past s.documents;
          }

  pub drop_policy-Stored :
      (name : String) (w : World) → Stored parse w → Stored parse (drop_policy name w).1
  drop_policy-Stored name w s =
      if-intro (λ (r : Bool × World). Stored parse r.1) (is_some (find_policy name w)) _ _
        (λ e. record {
          keyed = filter-KeyedByName name w.policies s.keyed;
          compiled = All-filter_kept _ _ _ w.policies (λ r e c. c) s.compiled;
          documents = s.documents;
        })
        (λ e. s)

  change_row-IsCompiled :
      (yaml : String) (parsed : Parsed) (version : ℤ) (by : Uuid) (now : ℕ) (r : PolicyRow)
      → parse yaml ≡ ok parsed
      → parsed.0.metadata.name ≡ r.name
      → IsCompiled parse (change_row parsed yaml version by now r)
  change_row-IsCompiled yaml parsed version by now r p n = record {
    parsed = parsed;
    parses = p;
    named = n;
    priority = refl;
    payload = refl;
    hash = refl;
    targets = refl;
  }

  pub update_policy-Stored :
      (name yaml : String) (parsed : Parsed) (version : ℤ) (by : Uuid) (now : ℕ) (w : World)
      → parse yaml ≡ ok parsed
      → parsed.0.metadata.name ≡ name
      → Stored parse w
      → Stored parse (update_policy name (change_row parsed yaml version by now) w)
  update_policy-Stored name yaml parsed version by now w p n s = record {
    keyed =
        update_where-KeyedByName name (change_row parsed yaml version by now) (λ r. refl) w.policies
          s.keyed;
    compiled =
        All-update_where name (change_row parsed yaml version by now) (λ r. refl) _ _ w.policies
          (λ r c.
            if-intro (IsCompiled parse) (is_named name r) _ _
              (λ e.
                change_row-IsCompiled yaml parsed version by now r p
                  (n ∙ sym ((eq_iff r.name name).0 e)))
              (λ e. c))
          s.compiled;
    documents = s.documents;
  }
