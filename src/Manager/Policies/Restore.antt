-- ===== src/Manager/Policies/Restore.antt =====
-- policies.rs, `create`, `update` and `rollback`: the way back to the document that a policy was
-- created with.
use scrooge_dlp.Common.{
  ℕ, String, Option, none, some, List, [], ◌∷◌, ◌≡◌, refl, ap, ◌∙◌, arith, ok, str_eq, ◌&&◌, find,
  find-append_some, find-append_last,
}
use scrooge_dlp.Common.Int.{ℤ, eqb_ℤ}
use scrooge_dlp.Manager.World.{Uuid, World, Faults, PolicyRow, HistoryRow, succ_i32}
use scrooge_dlp.Manager.World.Keeps.{
  Keeps, Keeps-at, Keeps-execute, Keeps-modify, Keeps-select, Keeps-lift, Keeps-bind, keeps_rules,
}
use scrooge_dlp.Manager.Api.{Claims, AppState}
use scrooge_dlp.Manager.Policies.{
  PolicyDto, PolicyRequest, Parsed, parse_and_compile, find_policy, is_named, to_dto, fetch_full,
  enqueue_push, insert_history, update_policy, change_row, write_version, or_else, create, update,
}
use scrooge_dlp.Manager.Policies.Versions.{find_version, rollback}
use scrooge_dlp.Manager.Policies.Update.{
  str_eq_refl, find-update_where, enqueue_push-history, enqueue_push-policies,
}
use scrooge_dlp.Manager.Policies.Create.{
  created_row, create_entry, row_created, all_created, create-success,
}
use scrooge_dlp.Manager.Policies.Rollback.{restored_row, all_restored-found, rollback-success}

module _ (name : String) (version : ℤ) (past : HistoryRow) where
  -- The history holds the entry under the version, and the policy is there.
  pub record Held (w : World) : Type 0 where
    pub entry : find_version name version w ≡ some past
    pub row : PolicyRow
    pub found : find_policy name w ≡ some row

  update_policy-Held :
      (parsed : Parsed) (yaml : String) (v : ℤ) (by : Uuid) (app : AppState) (w : World)
      → Held w
      → Held (update_policy name (change_row parsed yaml v by app.now) w)
  update_policy-Held parsed yaml v by app w h = record {
    entry = h.entry;
    row = change_row parsed yaml v by app.now h.row;
    found =
        find-update_where name (change_row parsed yaml v by app.now) (λ r. refl) w.policies h.row
          h.found;
  }

  insert_history-Held : (e : HistoryRow) (w : World) → Held w → Held (insert_history e w)
  insert_history-Held e w h = record {
    entry =
        find-append_some (λ x. str_eq x.policy_name name && eqb_ℤ x.version version) w.history
          (e ∷ []) past h.entry;
    row = h.row;
    found = h.found;
  }

  enqueue_push-Held :
      (room : Option ℕ) (pushed : Option String) (w : World)
      → Held w
      → Held (enqueue_push room pushed w)
  enqueue_push-Held room pushed w h = record {
    entry =
        ap (find (λ x. str_eq x.policy_name name && eqb_ℤ x.version version))
          (enqueue_push-history room pushed w)
        ∙ h.entry;
    row = h.row;
    found = ap (find (is_named name)) (enqueue_push-policies room pushed w) ∙ h.found;
  }

  fetch_full-Held : (n : String) → Keeps Held (fetch_full n)
  unfolding fetch_full
  fetch_full-Held n = search keeps_rules

  write_version-Held :
      (app : AppState) (claims : Claims) (parsed : Parsed) (yaml : String) (v : ℤ) (by : Uuid)
      (reason : String)
      → Keeps Held (write_version app claims name parsed yaml v by reason)
  unfolding write_version
  write_version-Held app claims parsed yaml v by reason =
      Keeps-bind _ _ (Keeps-execute _ _ (λ w h. update_policy-Held parsed yaml v by app w h)) (λ a.
        Keeps-bind _ _ (Keeps-execute _ _ (λ w h. insert_history-Held _ w h)) (λ b.
          Keeps-bind _ _
            (Keeps-modify _ (λ w h. enqueue_push-Held app.push_capacity (some name) w h))
            (λ c. fetch_full-Held name)))

  update-Held :
      (app : AppState) (claims : Claims) (req : PolicyRequest)
      → Keeps Held (update app claims name req)
  unfolding update
  update-Held app claims req = Keeps-bind _ _ (Keeps-lift _) (λ a.
      Keeps-bind _ _ (Keeps-lift _) (λ parsed. Keeps-bind _ _ (Keeps-lift _) (λ b.
        Keeps-bind _ _ (Keeps-lift _) (λ by. Keeps-bind _ _ (Keeps-select _ _) (λ row.
          Keeps-bind _ _ (Keeps-lift _) (λ current.
            write_version-Held app claims parsed req.content_yaml (succ_i32 current.version) by
              (or_else req.change_reason "update")))))))

-- A call of `update`, by whom and at what time it comes, and the faults of its queries.
pub record Change : Type 0 where
  pub app : AppState
  pub claims : Claims
  pub req : PolicyRequest
  pub faults : Faults

-- The database after these calls for one policy.
abbrev pub changed : String → List Change → World → World
changed name [] w = w
changed name (c ∷ cs) w = changed name cs (update c.app c.claims name c.req c.faults w).2

changed-Held :
    (name : String) (version : ℤ) (past : HistoryRow) (cs : List Change) (w : World)
    → Held name version past w
    → Held name version past (changed name cs w)
changed-Held name version past [] w h = h
changed-Held name version past (c ∷ cs) w h =
    changed-Held name version past cs _
      (Keeps-at (update-Held name version past c.app c.claims c.req) c.faults w h)

module _ (app : AppState) (claims : Claims) (req : PolicyRequest) (parsed : Parsed) (by : Uuid)
    (w : World) (admin : claims.role ≡ "admin")
    (parses : parse_and_compile app req.content_yaml ≡ ok parsed)
    (sub : app.parse_uuid claims.sub ≡ some by) (free : find_policy parsed.0.metadata.name w ≡ none)
    (unheld : find_version parsed.0.metadata.name (created_row app claims req parsed by).version w
      ≡ none) where
  abbrev name : String
  name = parsed.0.metadata.name

  abbrev first : PolicyRow
  first = created_row app claims req parsed by

  abbrev entry : HistoryRow
  entry = create_entry app claims req parsed by

  created-Held : Held name first.version entry (all_created app claims req parsed by w)
  created-Held =
      enqueue_push-Held name first.version entry app.push_capacity (some name)
        (insert_history entry (row_created app claims req parsed by w))
        (record {
          entry =
              find-append_last (λ x. str_eq x.policy_name name && eqb_ℤ x.version first.version)
                w.history entry unheld (ground (arith, str_eq_refl name));
          row = first;
          found = find-append_last (is_named name) w.policies first free (str_eq_refl name);
        })

  -- After an administrator has created a policy under a name that is free, in a version of which the
  -- history has no entry under that name, and after whatever calls of `update` for it, by anyone and
  -- under whichever faults, an administrator's rollback to the version that was created leaves the
  -- policy with the created document and its compiled form again, under the version after the current
  -- one, and answers it with its hash. No query of the creation and of the rollback fails, and the
  -- document compiles as it did.
  pub create-rollback :
      (changes : List Change) (app' : AppState) (claims' : Claims) (by' : Uuid) (reason : String)
      → claims'.role ≡ "admin"
      → app'.parse_uuid claims'.sub ≡ some by'
      → parse_and_compile app' req.content_yaml ≡ ok parsed
      → (w1 : World) × (d1 d2 : PolicyDto) × (current : PolicyRow) × (create app claims req [] w
          ≡ (ok d1, [], w1))
        × (find_policy name (changed name changes w1) ≡ some current)
        × ((rollback app' claims' name d1.version reason [] (changed name changes w1)).0 ≡ ok d2)
        × (d2.content_yaml ≡ req.content_yaml)
        × (d2.content_hash ≡ d1.content_hash)
        × (d2.version ≡ succ_i32 current.version)
        × ((row : PolicyRow) × (find_policy name
                (rollback app' claims' name d1.version reason [] (changed name changes w1)).2
              ≡ some row)
            × (to_dto row ≡ d2)
            × (row.content_compiled ≡ first.content_compiled))
  create-rollback changes app' claims' by' reason admin' sub' parses' =
      let w1 = all_created app claims req parsed by w in
      let w2 = changed name changes w1 in
      let h = changed-Held name first.version entry changes w1 created-Held in
      let run =
        rollback-success app' claims' name first.version reason parsed by' entry h.row w2 admin'
          sub' h.entry h.found parses' in
      (
        w1,
        to_dto first,
        to_dto (restored_row app' claims' name first.version reason parsed by' entry h.row),
        h.row,
        create-success app claims req parsed by w admin parses sub free,
        h.found,
        ap (λ r. r.0) run,
        refl,
        refl,
        refl,
        (
          restored_row app' claims' name first.version reason parsed by' entry h.row,
          ap (λ r. find_policy name r.2) run
              ∙ all_restored-found app' claims' name first.version reason parsed by' entry h.row w2
                  h.found,
          refl,
          refl,
        ),
      )
