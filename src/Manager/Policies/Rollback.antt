-- ===== src/Manager/Policies/Rollback.antt =====
-- policies.rs, `rollback`: the way back to a version that the history holds.
use scrooge_dlp.Common.{◌∙◌, ap, find, String, some, [], ◌≡◌, refl, ok}
use scrooge_dlp.Common.Int.{ℤ}
use scrooge_dlp.Manager.World.{
  Uuid, World, PolicyRow, HistoryRow, succ_i32, pure, lift, select, query, execute, modify, ◌>>=◌,
}
use scrooge_dlp.Manager.Api.{Claims, AppState}
use scrooge_dlp.Manager.Policies.{
  Parsed, parse_and_compile, find_policy, is_named, to_dto, fetch_full, enqueue_push,
  insert_history, change_row, update_policy, history_row, write_version,
}
use scrooge_dlp.Manager.Policies.Versions.{find_version, rollback}
use scrooge_dlp.Manager.Policies.Update.{find-update_where, enqueue_push-policies}

module _ (app : AppState) (claims : Claims) (name : String) (version : ℤ) (reason : String)
    (parsed : Parsed) (by : Uuid) where
  -- What a rollback to the entry `past` makes of the row `old`.
  abbrev pub restored_row : HistoryRow → PolicyRow → PolicyRow
  restored_row past old = change_row parsed past.content_yaml (succ_i32 old.version) by app.now old

  abbrev pub all_restored : HistoryRow → PolicyRow → World → World
  all_restored past old w = enqueue_push app.push_capacity (some name) (
      insert_history
        (history_row app claims name (succ_i32 old.version) past.content_yaml by reason)
        (update_policy name (change_row parsed past.content_yaml (succ_i32 old.version) by app.now)
          w))

  -- An administrator's rollback to a version that the history holds and that compiles, where no query
  -- fails, writes its document under the next version.
  pub rollback-success :
      (past : HistoryRow) (old : PolicyRow) (w : World)
      → claims.role ≡ "admin"
      → app.parse_uuid claims.sub ≡ some by
      → find_version name version w ≡ some past
      → find_policy name w ≡ some old
      → parse_and_compile app past.content_yaml ≡ ok parsed
      → rollback app claims name version reason [] w
        ≡ (ok (to_dto (restored_row past old)), [], all_restored past old w)
  unfolding rollback write_version fetch_full pure lift select query execute modify ◌>>=◌
  rollback-success past old w admin sub held found parses =
      let change = change_row parsed past.content_yaml (succ_i32 old.version) by app.now in
      rw (admin, sub, held, found, parses)
        (rw (
          enqueue_push-policies app.push_capacity (some name) (
              insert_history
                (history_row app claims name (succ_i32 old.version) past.content_yaml by reason)
                (update_policy name change w)),
          find-update_where name change (λ r. refl) w.policies old found,
        ))

  -- The policy after a rollback.
  pub all_restored-found :
      (past : HistoryRow) (old : PolicyRow) (w : World)
      → find_policy name w ≡ some old
      → find_policy name (all_restored past old w) ≡ some (restored_row past old)
  all_restored-found past old w found =
      let change = change_row parsed past.content_yaml (succ_i32 old.version) by app.now in
      ap (find (is_named name)) (enqueue_push-policies app.push_capacity (some name) _)
      ∙ find-update_where name change (λ r. refl) w.policies old found
