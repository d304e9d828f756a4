-- ===== src/Manager/Policies/Create.antt =====
-- policies.rs, `create` and `delete_`: what they have done when they end, and what a lost query
-- leaves behind.
use scrooge_dlp.Common.{
  String, Bool, true, false, not, none, some, List, [], ◌∷◌, ◌++◌, ◌≡◌, refl, arith, ok, err,
  str_eq, find, filter,
}
use scrooge_dlp.Manager.World.{
  Uuid, World, Faults, PolicyRow, HistoryRow, attempt, pure, lift, select, query, execute, modify,
  ◌>>=◌,
}
use scrooge_dlp.Manager.Api.{database, not_found, bad_request, already_exists, Claims, AppState}
use scrooge_dlp.Manager.Policies.{
  PolicyRequest, Parsed, parse_and_compile, is_named, find_policy, notify_policy_changed, to_dto,
  fetch_full, enqueue_push, insert_history, insert_policy, drop_policy, or_else, history_row,
  new_row, create, delete_, get,
}
use scrooge_dlp.Manager.Policies.Update.{str_eq_refl, enqueue_push-history, enqueue_push-policies}

pub find-append_none {ℓ} :
    {A : Type ℓ} (p : A → Bool) (xs ys : List A) → find p xs ≡ none → find p (xs ++ ys) ≡ find p ys
find-append_none p [] ys h = refl
find-append_none p (x ∷ xs) ys h = ground (arith, find-append_none p xs ys)

find-filter-not {ℓ} :
    {A : Type ℓ} (p : A → Bool) (xs : List A) → find p (filter (λ x. not (p x)) xs) ≡ none
find-filter-not p [] = refl
find-filter-not p (x ∷ xs) = ground (arith, find-filter-not p xs)

insert_policy-free :
    (r : PolicyRow) (w : World)
    → find_policy r.name w ≡ none
    → insert_policy r w ≡ some (tt, record w { policies = w.policies ++ r ∷ [] })
insert_policy-free r w h = rw (insert_policy, h)

module _ (app : AppState) (claims : Claims) (req : PolicyRequest) (parsed : Parsed)
    (by : Uuid) where
  abbrev pub new_name : String
  new_name = parsed.0.metadata.name

  abbrev pub created_row : PolicyRow
  created_row = new_row app parsed req.content_yaml by

  abbrev pub create_entry : HistoryRow
  create_entry =
      history_row app claims new_name created_row.version req.content_yaml by
        (or_else req.change_reason "create")

  abbrev pub row_created : World → World
  row_created w = record w { policies = w.policies ++ created_row ∷ [] }

  abbrev pub all_created : World → World
  all_created w =
      enqueue_push app.push_capacity (some new_name) (insert_history create_entry (row_created w))

  module _ (w : World) (admin : claims.role ≡ "admin")
      (parses : parse_and_compile app req.content_yaml ≡ ok parsed)
      (sub : app.parse_uuid claims.sub ≡ some by) where
    -- An administrator's new policy under a free name, in which no query fails, is stored, entered in
    -- the history, announced to the push bridge and given back.
    pub create-success :
        find_policy new_name w ≡ none
        → create app claims req [] w ≡ (ok (to_dto created_row), [], all_created w)
    unfolding create fetch_full pure lift select query execute modify ◌>>=◌
    create-success free =
        rw
          (
            admin,
            parses,
            sub,
            free,
            insert_policy-free created_row w free,
            attempt,
            insert_policy-free created_row w free,
          )
          (rw (
            enqueue_push-policies app.push_capacity (some new_name)
                (insert_history create_entry (row_created w)),
            find-append_none (is_named new_name) w.policies (created_row ∷ []) free,
            str_eq_refl new_name,
          ))

    -- Under a taken name nothing is written, and the status is 400.
    pub create-taken :
        (old : PolicyRow)
        → find_policy new_name w ≡ some old
        → create app claims req [] w ≡ (err (bad_request (already_exists new_name)), [], w)
    unfolding create pure lift select query execute modify ◌>>=◌
    create-taken old found = rw (admin, parses, sub, found)

    -- Where the query for the history fails, the caller gets an error, and the policy is there with no
    -- entry in the history and no push.
    pub create-torn :
        (fs : Faults)
        → find_policy new_name w ≡ none
        → create app claims req (false ∷ false ∷ true ∷ fs) w ≡ (err database, fs, row_created w)
    unfolding create pure lift select query execute modify ◌>>=◌
    create-torn fs free = rw (
      admin,
      parses,
      sub,
      free,
      insert_policy-free created_row w free,
      attempt,
      insert_policy-free created_row w free,
    )

module _ (app : AppState) (claims : Claims) (name : String) (w : World)
    (admin : claims.role ≡ "admin") where
  abbrev pub rows_dropped : World
  rows_dropped = record w {
    policies = filter (λ r. not (is_named name r)) w.policies;
    assignments = filter (λ a. not (str_eq a.policy_name name)) w.assignments;
  }

  drop_policy-found :
      (old : PolicyRow) → find_policy name w ≡ some old → drop_policy name w ≡ (true, rows_dropped)
  drop_policy-found old found = rw (drop_policy, found)

  abbrev pub dropped : World
  dropped = enqueue_push app.push_capacity (some name) rows_dropped

  -- After an administrator's deletion of a policy that is there, in which no query fails, the policy
  -- is not found, and the history is kept.
  pub delete_-success :
      (old : PolicyRow)
      → find_policy name w ≡ some old
      → (delete_ app claims name [] w ≡ (ok tt, [], dropped))
        × (get app claims name [] dropped ≡ (err not_found, [], dropped))
        × (dropped.history ≡ w.history)
  unfolding delete_ get pure lift select query execute modify ◌>>=◌
  delete_-success old found = (
    rw (admin, drop_policy-found old found, notify_policy_changed, drop_policy-found old found),
    rw (
      admin,
      enqueue_push-policies app.push_capacity (some name) rows_dropped,
      find-filter-not (is_named name) w.policies,
    ),
    enqueue_push-history app.push_capacity (some name) rows_dropped,
  )
