-- ===== src/Manager/Events.antt =====
-- crates/scrooge-manager-bin/src/grpc.rs, `insert_event_batch`: the events of an agent are stored in
-- one transaction. The names of event types (generated from proto/), the parser of UUIDs
-- and the new identities are parameters; the numbers of the enums are those of proto/.
pub mod Resend
pub mod Listing
pub mod Pages
use scrooge_dlp.Common.{
  ℕ, zero, suc, String, Bool, true, false, Option, none, some, List, [], ◌∷◌, ◌++◌, ◌+◌, ◌≡◌, refl,
  sym, ap, ◌∙◌, arith, if◌then◌else◌, ◌==◌, ◌&&◌, ◌||◌, str_eq, any, map, All, Bool-cases, inl, inr,
}
use scrooge_dlp.Common.Int.{ℤ, pos, negsuc}
use scrooge_dlp.Manager.World.{Uuid}
use scrooge_dlp.Manager.Details.{Event, Json, obj, build_details_json}

-- Table `events`, whose key is `id` and `timestamp`.
pub record EventRow : Type 0 where
  pub id : Uuid
  pub timestamp : ℤ
  pub agent_id : Uuid
  pub event_type : String
  pub severity : String
  pub direction : Option String
  pub matched_policy : Option String
  pub matched_rule : Option String
  pub action_taken : Option String
  pub details : Json

-- `severity_to_str`
unfoldable pub severity_to_str : ℤ → String
severity_to_str (negsuc n) = "low"
severity_to_str (pos n) =
    if n == 2 then "medium" else if n == 3 then "high" else if n == 4 then "critical" else "low"

-- `direction_to_str_opt`
unfoldable pub direction_to_str_opt : ℤ → Option String
direction_to_str_opt (negsuc n) = none
direction_to_str_opt (pos n) =
    if n == 1
    then some "inbound"
    else if n == 2
    then some "outbound"
    else if n == 3
    then some "internal"
    else none

-- `action_to_str_opt`
unfoldable pub action_to_str_opt : ℤ → Option String
action_to_str_opt (negsuc n) = none
action_to_str_opt (pos n) =
    if n == 1
    then some "log_only"
    else if n == 2
    then some "log_and_alert"
    else if n == 3
    then some "warn_user"
    else if n == 4
    then some "block"
    else if n == 5
    then some "quarantine"
    else if n == 6
    then some "kill_process"
    else if n == 7
    then some "lock_workstation"
    else none

-- What the handler takes from outside: `Uuid::parse_str`, the identity that `Uuid::new_v4` gives for
-- the n-th event of the batch, the time as the column keeps it, and `EventType::as_str_name`.
pub record Sources : Type 0 where
  pub parse_uuid : String → Option Uuid
  pub new_v4 : ℕ → Uuid
  pub timestamptz : ℤ → ℤ
  pub event_type_to_str : ℤ → String

abbrev pub non_empty : String → Option String
non_empty s = if str_eq s "" then none else some s

abbrev pub eqb_time : ℤ → ℤ → Bool
eqb_time (pos a) (pos b) = a == b
eqb_time (pos a) (negsuc b) = false
eqb_time (negsuc a) (pos b) = false
eqb_time (negsuc a) (negsuc b) = a == b

abbrev pub same_key : EventRow → EventRow → Bool
same_key r s = r.id == s.id && eqb_time r.timestamp s.timestamp

-- `INSERT INTO events .. ON CONFLICT DO NOTHING`, with `rows_affected`.
abbrev pub insert_row : EventRow → List EventRow → ℕ × List EventRow
insert_row r table = if any (same_key r) table then (0, table) else (1, table ++ r ∷ [])

module _ (sources : Sources) (agent : Uuid) where
  abbrev pub event_id_or_new : ℕ → Event → Uuid
  event_id_or_new n ev = elim (sources.parse_uuid ev.event_id) [
    | none ↦ sources.new_v4 n
    | some id ↦ id
  ]

  -- The row of the n-th event; the agent is the one of the certificate.
  unfoldable pub event_row : ℕ → Event → EventRow
  unfolding severity_to_str direction_to_str_opt action_to_str_opt build_details_json
  event_row n ev = record {
    id = event_id_or_new n ev;
    timestamp = sources.timestamptz ev.timestamp_ns;
    agent_id = agent;
    event_type = sources.event_type_to_str ev.event_type;
    severity = severity_to_str ev.severity;
    direction = direction_to_str_opt ev.direction;
    matched_policy = non_empty ev.matched_policy_id;
    matched_rule = non_empty ev.matched_rule_id;
    action_taken = action_to_str_opt ev.action_taken;
    details = obj (build_details_json ev);
  }

  -- The loop over the events from the n-th on, inside the transaction: `none` is the query that
  -- fails, where the list of faults says so.
  unfoldable pub insert_events :
      ℕ → List Event → List Bool → List EventRow → Option (ℕ × List EventRow × List Bool)
  unfolding event_row
  insert_events n [] fs table = some (0, table, fs)
  insert_events n (ev ∷ evs) (true ∷ fs) table = none
  insert_events n (ev ∷ evs) (false ∷ fs) table =
      let (k, table') = insert_row (event_row n ev) table in
      elim (insert_events (n + 1) evs fs table') [
        | none ↦ none
        | some (m, table'', fs') ↦ some (k + m, table'', fs')
      ]
  insert_events n (ev ∷ evs) [] table =
      let (k, table') = insert_row (event_row n ev) table in
      elim (insert_events (n + 1) evs [] table') [
        | none ↦ none
        | some (m, table'', fs') ↦ some (k + m, table'', fs')
      ]

  abbrev pub commit :
      Option (ℕ × List EventRow × List Bool) → List EventRow → Option ℕ × List EventRow
  commit none table = (none, table)
  commit (some (n, table', (true ∷ fs))) table = (none, table)
  commit (some (n, table', (false ∷ fs))) table = (some n, table')
  commit (some (n, table', [])) table = (some n, table')

  -- `insert_event_batch`: `none` is an error, after which the transaction is rolled back. The first
  -- fault is the one of `begin`, the last one of `commit`.
  unfoldable pub insert_event_batch :
      List Event → List Bool → List EventRow → Option ℕ × List EventRow
  unfolding insert_events
  insert_event_batch evs [] table = commit (insert_events 0 evs [] table) table
  insert_event_batch evs (true ∷ fs) table = (none, table)
  insert_event_batch evs (false ∷ fs) table = commit (insert_events 0 evs fs table) table

  commit-error :
      (r : Option (ℕ × List EventRow × List Bool)) (table : List EventRow)
      → (commit r table).0 ≡ none
      → (commit r table).1 ≡ table
  commit-error none table h = refl
  commit-error (some (n, table', (true ∷ fs))) table h = refl
  commit-error (some (n, table', (false ∷ fs))) table h = absurd (cc h)
  commit-error (some (n, table', [])) table h = absurd (cc h)

  -- A batch whose storing ends in an error, at whichever query, leaves no event of it behind.
  pub insert_event_batch_atomic :
      (evs : List Event) (fs : List Bool) (table : List EventRow)
      → (insert_event_batch evs fs table).0 ≡ none
      → (insert_event_batch evs fs table).1 ≡ table
  unfolding insert_event_batch
  insert_event_batch_atomic evs [] table h = commit-error (insert_events 0 evs [] table) table h
  insert_event_batch_atomic evs (true ∷ fs) table h = refl
  insert_event_batch_atomic evs (false ∷ fs) table h =
      commit-error (insert_events 0 evs fs table) table h
