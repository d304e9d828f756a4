-- ===== src/Manager/Policies/Versions.antt =====
-- policies.rs: the history of a policy, and the way back to one of its versions.
use scrooge_dlp.Common.{String, Bool, Option, List, ◌&&◌, ok_or, str_eq, filter, find}
use scrooge_dlp.Common.Int.{ℤ, ltb_ℤ, eqb_ℤ}
use scrooge_dlp.Common.Sort.{sort_by}
use scrooge_dlp.Manager.World.{World, HistoryRow, Action, lift, select, ◌>>=◌, ◌>>◌, succ_i32}
use scrooge_dlp.Manager.Api.{ApiError, not_found, database, Claims, require_admin, AppState}
use scrooge_dlp.Manager.Policies.{
  PolicyDto, find_policy, parse_and_compile, parse_sub, write_version,
}

-- The rows of `policy_history` of one policy.
abbrev pub rows_of : String → World → List HistoryRow
rows_of name w = filter (λ h. str_eq h.policy_name name) w.history

-- The newest version first.
abbrev pub newer : HistoryRow → HistoryRow → Bool
newer a b = ltb_ℤ b.version a.version

-- `SELECT content_yaml FROM policy_history WHERE policy_name = $1 AND version = $2`: where several
-- rows fit, the first one that was written.
abbrev pub find_version : String → ℤ → World → Option HistoryRow
find_version name version w =
    find (λ h. str_eq h.policy_name name && eqb_ℤ h.version version) w.history

module _ (app : AppState) (claims : Claims) where
  -- `history`
  unfoldable pub history : String → Action ApiError (List HistoryRow)
  history name = do
    lift (require_admin claims)
    select (λ w. sort_by newer (rows_of name w)) database

  -- `rollback`; `reason` is "rollback to v" with the number.
  unfoldable pub rollback : String → ℤ → String → Action ApiError PolicyDto
  rollback name version reason = do
    lift (require_admin claims)
    by ← lift (parse_sub app claims)
    historical ← select (find_version name version) database
    old ← lift (ok_or historical not_found)
    row ← select (find_policy name) database
    current ← lift (ok_or row not_found)
    parsed ← lift (parse_and_compile app old.content_yaml)
    write_version app claims name parsed old.content_yaml (succ_i32 current.version) by reason
