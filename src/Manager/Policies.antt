-- ===== src/Manager/Policies.antt =====
-- crates/scrooge-manager-api/src/handlers/policies.rs: the REST handlers of the policies.
pub mod Versions
pub mod Listing
pub mod Update
pub mod Stored
pub mod Create
pub mod Rollback
pub mod Restore
pub mod Access
use scrooge_dlp.Common.{
  ℕ, String, Bool, true, false, not, Option, none, some, List, [], ◌∷◌, ◌++◌, Outcome, ok, err,
  ok_or, map_err, err_if, if◌then◌else◌, str_eq, ltb, length, filter, find, map, is_empty,
}
use scrooge_dlp.Common.Int.{ℤ, pos, ltb_ℤ}
use scrooge_dlp.Policy.Defs.{Policy, PolicyError}
use scrooge_dlp.Policy.Compile.{CompiledPolicy, from_yaml, compile}
use scrooge_dlp.Manager.World.{
  Uuid, World, PolicyRow, HistoryRow, AssignmentRow, Action, lift, query, select, execute, modify,
  pure, ◌>>=◌, ◌>>◌, succ_i32,
}
use scrooge_dlp.Manager.Api.{
  ApiError, forbidden, not_found, database, bad_request, internal, BadRequest, already_exists,
  name_mismatch, Claims, require_admin, AppState,
}
use Prim.Native.Nat.{zero}

pub record PolicySummaryDto : Type 0 where
  pub name : String
  pub version : ℤ
  pub enabled : Bool
  pub priority : ℤ
  pub content_hash : String
  pub created_at : ℕ
  pub updated_at : ℕ

pub record PolicyDto : Type 0 where
  pub name : String
  pub version : ℤ
  pub enabled : Bool
  pub priority : ℤ
  pub content_yaml : String
  pub content_hash : String
  pub targets : String
  pub created_at : ℕ
  pub updated_at : ℕ

-- `CreatePolicyRequest` and `UpdatePolicyRequest`, which have the same fields.
pub record PolicyRequest : Type 0 where
  pub content_yaml : String
  pub change_reason : Option String

pub record ValidateResponse : Type 0 where
  pub valid : Bool
  pub errors : List PolicyError
  pub hash : Option String
  pub name : Option String
  pub version : Option ℕ
  pub parsed : Option String

abbrev pub Parsed : Type 0
Parsed = Policy × CompiledPolicy × String

-- `parse_and_compile`
unfoldable pub parse_and_compile : AppState → String → Outcome ApiError Parsed
parse_and_compile app yaml = elim (from_yaml app.codecs yaml) [
  | err e ↦ err (bad_request (BadRequest.policy e))
  | ok policy ↦ elim (compile app.codecs policy) [
    | err e ↦ err (internal "compile failed")
    | ok compiled ↦ elim (app.targets_json policy.targets) [
      | none ↦ err (internal "targets serialization failed")
      | some targets ↦ ok (policy, compiled, targets)
    ]
  ]
]

abbrev pub is_named : String → PolicyRow → Bool
is_named name r = str_eq r.name name

-- `SELECT .. FROM policies WHERE name = $1`
abbrev pub find_policy : String → World → Option PolicyRow
find_policy name w = find (is_named name) w.policies

abbrev pub to_dto : PolicyRow → PolicyDto
to_dto r = record {
  name = r.name;
  version = r.version;
  enabled = r.enabled;
  priority = r.priority;
  content_yaml = r.content_yaml;
  content_hash = r.content_hash;
  targets = r.targets;
  created_at = r.created_at;
  updated_at = r.updated_at;
}

-- `fetch_full`: `fetch_one` is an error where there is no row.
unfoldable pub fetch_full : String → Action ApiError PolicyDto
fetch_full name = do
  row ← select (find_policy name) database
  lift (elim row [ none ↦ err database | some r ↦ ok (to_dto r) ])

-- `tx.try_send`, which drops the request where the channel is full.
abbrev pub enqueue_push : Option ℕ → Option String → World → World
enqueue_push none name w = w
enqueue_push (some room) name w =
    if ltb (length w.pushes) room then record w { pushes = w.pushes ++ name ∷ [] } else w

-- `notify_policy_changed`
abbrev pub notify_policy_changed : AppState → Option String → Action ApiError (Unit {0})
notify_policy_changed app name = modify (enqueue_push app.push_capacity name)

-- `INSERT INTO policies`, refused where the name is taken.
abbrev pub insert_policy : PolicyRow → World → Option (Unit {0} × World)
insert_policy r w = elim (find_policy r.name w) [
  | some _ ↦ none
  | none ↦ some (tt, record w { policies = w.policies ++ r ∷ [] })
]

-- `INSERT INTO policy_history`
abbrev pub insert_history : HistoryRow → World → World
insert_history h w = record w { history = w.history ++ h ∷ [] }

-- The columns that `UPDATE policies SET ..` writes; the trigger sets `updated_at`.
abbrev pub change_row : Parsed → String → ℤ → Uuid → ℕ → PolicyRow → PolicyRow
change_row (policy, compiled, targets) yaml version by now r = record r {
  version = version;
  content_yaml = yaml;
  content_compiled = compiled.payload;
  content_hash = compiled.hash;
  targets = targets;
  priority = policy.priority;
  updated_by = by;
  updated_at = now;
}

abbrev pub update_where :
    (PolicyRow → Bool) → (PolicyRow → PolicyRow) → List PolicyRow → List PolicyRow
update_where p f [] = []
update_where p f (r ∷ rs) = (if p r then f r else r) ∷ update_where p f rs

abbrev pub update_policy : String → (PolicyRow → PolicyRow) → World → World
update_policy name f w = record w { policies = update_where (is_named name) f w.policies }

abbrev pub is_some {ℓ} : {A : Type ℓ} → Option A → Bool
is_some none = false
is_some (some a) = true

-- `DELETE FROM policies WHERE name = $1`, with whether a row went, and the assignments of the
-- policy with it.
abbrev pub drop_policy : String → World → Bool × World
drop_policy name w =
    if is_some (find_policy name w)
    then (
      true,
      record w {
        policies = filter (λ r. not (is_named name r)) w.policies;
        assignments = filter (λ a. not (str_eq a.policy_name name)) w.assignments;
      },
    )
    else (false, w)

-- `i32::try_from(version).unwrap_or(1)` of a `u32`.
abbrev pub to_i32_or_one : ℕ → ℤ
to_i32_or_one n = if ltb n 2147483648 then pos n else pos 1

abbrev pub or_else : Option String → String → String
or_else none d = d
or_else (some s) d = s

abbrev pub parse_sub : AppState → Claims → Outcome ApiError Uuid
parse_sub app claims = ok_or (app.parse_uuid claims.sub) (internal "sub not UUID")

abbrev pub new_row : AppState → Parsed → String → Uuid → PolicyRow
new_row app (policy, compiled, targets) yaml by = record {
  name = policy.metadata.name;
  version = to_i32_or_one policy.metadata.version;
  content_yaml = yaml;
  content_compiled = compiled.payload;
  content_hash = compiled.hash;
  targets = targets;
  priority = policy.priority;
  enabled = true;
  created_at = app.now;
  updated_at = app.now;
  created_by = by;
  updated_by = by;
}

module _ (app : AppState) (claims : Claims) where
  abbrev pub history_row : String → ℤ → String → Uuid → String → HistoryRow
  history_row name version yaml by reason = record {
    policy_name = name;
    version = version;
    content_yaml = yaml;
    changed_by = by;
    changed_at = app.now;
    change_reason = reason;
  }

  -- `create`
  unfoldable pub create : PolicyRequest → Action ApiError PolicyDto
  create req = do
    lift (require_admin claims)
    parsed ← lift (parse_and_compile app req.content_yaml)
    by ← lift (parse_sub app claims)
    let name = parsed.0.metadata.name
    exists ← select (find_policy name) database
    lift (err_if (is_some exists) (bad_request (already_exists name)))
    let row = new_row app parsed req.content_yaml by
    query (insert_policy row) database
    execute
        (insert_history
          (history_row name row.version req.content_yaml by (or_else req.change_reason "create")))
        database
    notify_policy_changed app (some name)
    fetch_full name

  -- From the new version on, `update` and `rollback` do the same.
  unfoldable pub write_version :
      String → Parsed → String → ℤ → Uuid → String → Action ApiError PolicyDto
  write_version name parsed yaml version by reason = do
    execute (update_policy name (change_row parsed yaml version by app.now)) database
    execute (insert_history (history_row name version yaml by reason)) database
    notify_policy_changed app (some name)
    fetch_full name

  -- `update`
  unfoldable pub update : String → PolicyRequest → Action ApiError PolicyDto
  update name req = do
    lift (require_admin claims)
    parsed ← lift (parse_and_compile app req.content_yaml)
    lift (
        err_if (not (str_eq parsed.0.metadata.name name))
          (bad_request (name_mismatch name parsed.0.metadata.name)))
    by ← lift (parse_sub app claims)
    row ← select (find_policy name) database
    current ← lift (ok_or row not_found)
    write_version name parsed req.content_yaml (succ_i32 current.version) by
        (or_else req.change_reason "update")

  -- `delete_`: the assignments go with the policy, the history stays.
  unfoldable pub delete_ : String → Action ApiError (Unit {0})
  delete_ name = do
    lift (require_admin claims)
    found ← query (λ w. some (drop_policy name w)) database
    lift (err_if (not found) not_found)
    notify_policy_changed app (some name)

  -- `get`
  unfoldable pub get : String → Action ApiError PolicyDto
  get name = do
    lift (require_admin claims)
    row ← select (find_policy name) database
    found ← lift (ok_or row not_found)
    pure (to_dto found)
