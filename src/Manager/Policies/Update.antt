-- ===== src/Manager/Policies/Update.antt =====
-- policies.rs, `update`: what a successful update has done, and what a lost query leaves behind.
use scrooge_dlp.Common.{
  ℕ, String, true, false, Option, none, some, List, [], ◌∷◌, ◌≡◌, ◌≢◌, refl, arith, ok, err, str_eq,
  eq_iff, find,
}
use scrooge_dlp.Manager.World.{
  Uuid, World, Faults, PolicyRow, HistoryRow, succ_i32, pure, lift, select, query, execute, modify,
  ◌>>=◌,
}
use scrooge_dlp.Manager.Api.{database, Claims, AppState}
use scrooge_dlp.Manager.Policies.{
  PolicyRequest, Parsed, parse_and_compile, is_named, find_policy, to_dto, fetch_full, enqueue_push,
  insert_history, change_row, update_where, update_policy, or_else, history_row, write_version,
  update,
}

pub str_eq_refl : (s : String) → str_eq s s ≡ true
str_eq_refl s = (eq_iff s s).1 refl

module _ (name : String) (f : PolicyRow → PolicyRow)
    (keeps : (r : PolicyRow) → (f r).name ≡ r.name) where
  -- The row of the name is changed, and found changed.
  pub find-update_where :
      (rs : List PolicyRow) (r : PolicyRow)
      → find (is_named name) rs ≡ some r
      → find (is_named name) (update_where (is_named name) f rs) ≡ some (f r)
  find-update_where [] r h = absurd (cc h)
  find-update_where (x ∷ rs) r h = ground (arith, keeps x, find-update_where rs r)

  -- No other row is touched.
  pub find-update_where_ne :
      (other : String) (rs : List PolicyRow)
      → other ≢ name
      → find (is_named other) (update_where (is_named name) f rs) ≡ find (is_named other) rs
  find-update_where_ne other [] ne = refl
  find-update_where_ne other (x ∷ rs) ne =
      ground
        (arith, keeps x, eq_iff x.name name, eq_iff x.name other, find-update_where_ne other rs ne)

pub enqueue_push-policies :
    (room : Option ℕ) (name : Option String) (w : World)
    → (enqueue_push room name w).policies ≡ w.policies
enqueue_push-policies none name w = refl
enqueue_push-policies (some room) name w = ground arith

pub enqueue_push-history :
    (room : Option ℕ) (name : Option String) (w : World)
    → (enqueue_push room name w).history ≡ w.history
enqueue_push-history none name w = refl
enqueue_push-history (some room) name w = ground arith

module _ (app : AppState) (claims : Claims) (req : PolicyRequest) (parsed : Parsed) (by : Uuid)
    (w : World) (old : PolicyRow) where
  abbrev pub name : String
  name = parsed.0.metadata.name

  -- The row after the update, and its entry in the history.
  abbrev pub updated_row : PolicyRow
  updated_row = change_row parsed req.content_yaml (succ_i32 old.version) by app.now old

  abbrev pub update_entry : HistoryRow
  update_entry =
      history_row app claims name (succ_i32 old.version) req.content_yaml by
        (or_else req.change_reason "update")

  abbrev pub rows_updated : World → World
  rows_updated =
      update_policy name (change_row parsed req.content_yaml (succ_i32 old.version) by app.now)

  abbrev pub all_updated : World → World
  all_updated w =
      enqueue_push app.push_capacity (some name) (insert_history update_entry (rows_updated w))

  module _ (admin : claims.role ≡ "admin")
      (parses : parse_and_compile app req.content_yaml ≡ ok parsed)
      (sub : app.parse_uuid claims.sub ≡ some by) (found : find_policy name w ≡ some old) where
    -- An administrator's update of a policy that is there, in which no query fails, answers with the
    -- row under the next version, and leaves that row and one more entry of the history.
    pub update-success :
        update app claims name req [] w ≡ (ok (to_dto updated_row), [], all_updated w)
    unfolding update write_version fetch_full pure lift select query execute modify ◌>>=◌
    update-success =
        rw (admin, parses, str_eq_refl name, sub, found)
          (rw (
            enqueue_push-policies app.push_capacity (some name)
                (insert_history update_entry (rows_updated w)),
            find-update_where name
                (change_row parsed req.content_yaml (succ_i32 old.version) by app.now) (λ r. refl)
                w.policies old found,
          ))

    -- Where the query for the history fails, the caller gets an error, and the policy stays changed
    -- with no entry of its new version in the history and no push.
    pub update-torn :
        (fs : Faults)
        → update app claims name req (false ∷ false ∷ true ∷ fs) w
          ≡ (err database, fs, rows_updated w)
    unfolding update write_version fetch_full pure lift select query execute modify ◌>>=◌
    update-torn fs = rw (admin, parses, str_eq_refl name, sub, found)
