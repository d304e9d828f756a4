-- ===== src/Manager/Push.antt =====
-- crates/scrooge-manager-bin/src/grpc.rs: the push of policies to an agent, at its connection and at
-- a broadcast, and its answers; crates/scrooge-agent-bin/src/stream.rs: the agent's side.
pub mod Laws
pub mod Converge
use scrooge_dlp.Common.{
  ℕ, zero, suc, String, Bool, true, false, not, ◌&&◌, ◌||◌, Option, none, some, List, [], ◌∷◌, ◌++◌,
  Outcome, ok, err, if◌then◌else◌, str_eq, ◌==◌, ltb, is_empty, any, filter, find, map,
}
use scrooge_dlp.Common.Int.{ℤ, pos, ltb_ℤ, eqb_ℤ, to_u32_or_zero}
use scrooge_dlp.Common.Sort.{sort_by}
use scrooge_dlp.Manager.World.{
  Uuid, Bytes, World, PolicyRow, AssignmentRow, Action, pure, select, execute, ◌>>=◌, ◌>>◌,
}

-- `PolicyRef`, with `version` and `priority` in a `u32`.
pub record PolicyRef : Type 0 where
  pub policy_id : String
  pub version : ℕ
  pub content_compiled : Bytes
  pub content_hash : String
  pub priority : ℕ

-- `PolicyAck`
pub record PolicyAck : Type 0 where
  pub policy_id : String
  pub version : ℕ
  pub status : ℕ

-- `i32::try_from(version).unwrap_or(0)` of a `u32`.
abbrev pub to_i32_or_zero : ℕ → ℤ
to_i32_or_zero n = if ltb n 2147483648 then pos n else pos 0

abbrev pub is_of : Uuid → String → AssignmentRow → Bool
is_of agent name a = (a.agent_id == agent) && str_eq a.policy_name name

-- `pa.acked_version` of the `LEFT JOIN`, NULL where the agent has no row for the policy.
abbrev pub acked_in : Uuid → String → List AssignmentRow → Option ℤ
acked_in agent name [] = none
acked_in agent name (a ∷ rows) =
    if is_of agent name a then a.acked_version else acked_in agent name rows

abbrev pub is_behind : Option ℤ → ℤ → Bool
is_behind none version = true
is_behind (some acked) version = ltb_ℤ acked version

abbrev pub is_pending : Uuid → List AssignmentRow → PolicyRow → Bool
is_pending agent rows p = p.enabled && is_behind (acked_in agent p.name rows) p.version

abbrev pub to_ref : PolicyRow → PolicyRef
to_ref p = record {
  policy_id = p.name;
  version = to_u32_or_zero p.version;
  content_compiled = p.content_compiled;
  content_hash = p.content_hash;
  priority = to_u32_or_zero p.priority;
}

module _ (name_before : String → String → Bool) (agent : Uuid) where
  -- `ORDER BY p.priority DESC, p.name ASC`
  abbrev pub before : PolicyRow → PolicyRow → Bool
  before p q =
      ltb_ℤ q.priority p.priority || (eqb_ℤ p.priority q.priority && name_before p.name q.name)

  -- `load_pending_policies`
  unfoldable pub load_pending_policies : World → List PolicyRef
  load_pending_policies w =
      map to_ref (sort_by before (filter (is_pending agent w.assignments) w.policies))

abbrev pub change_assignment :
    (AssignmentRow → Bool)
    → (AssignmentRow → AssignmentRow)
    → List AssignmentRow
    → List AssignmentRow
change_assignment p f [] = []
change_assignment p f (a ∷ rows) = (if p a then f a else a) ∷ change_assignment p f rows

abbrev pub upsert : ℕ → Uuid → String → ℤ → List AssignmentRow → List AssignmentRow
upsert now agent name version rows =
    if any (is_of agent name) rows
    then change_assignment (is_of agent name)
        (λ a. record a { assigned_version = version; last_pushed_at = now }) rows
    else rows
      ++ record {
        agent_id = agent;
        policy_name = name;
        assigned_version = version;
        acked_version = none;
        last_pushed_at = now;
      }
        ∷ []

-- `mark_assigned`
unfoldable pub mark_assigned : ℕ → Uuid → String → ℤ → World → World
mark_assigned now agent name version w = record w {
  assignments = upsert now agent name version w.assignments;
}

abbrev pub set_acked : Uuid → String → ℤ → List AssignmentRow → List AssignmentRow
set_acked agent name version =
    change_assignment (is_of agent name) (λ a. record a { acked_version = some version })

-- `mark_acked`
unfoldable pub mark_acked : Uuid → String → ℤ → World → World
mark_acked agent name version w = record w {
  assignments = set_acked agent name version w.assignments;
}

-- A query whose error is only logged.
abbrev pub logged : (World → World) → Action (Unit {0}) (Unit {0})
logged f fs w = let (r, fs', w') = execute f tt fs w in (ok tt, fs', w')

module _ (name_before : String → String → Bool) (now : ℕ) (agent : Uuid) where
  abbrev pub assign_all : List PolicyRef → Action (Unit {0}) (Unit {0})
  assign_all [] = pure tt
  assign_all (r ∷ rs) =
      logged (mark_assigned now agent r.policy_id (to_i32_or_zero r.version)) >> assign_all rs

  -- The initial push of `stream` and a round of `run_policy_push_bridge`: the policies of the
  -- update that is sent, none of them where nothing is sent.
  unfoldable pub push_pending : Action (Unit {0}) (List PolicyRef)
  unfolding load_pending_policies
  push_pending = do
    refs ← select (load_pending_policies name_before agent) tt
    assign_all refs
    pure refs

-- The arm of `stream` for a `PolicyAck`.
unfoldable pub receive_ack : Uuid → PolicyAck → Action (Unit {0}) (Unit {0})
receive_ack agent ack =
    if ack.status == 1
    then logged (mark_acked agent ack.policy_id (to_i32_or_zero ack.version))
    else pure tt

unfoldable pub receive_acks : Uuid → List PolicyAck → Action (Unit {0}) (Unit {0})
receive_acks agent [] = pure tt
receive_acks agent (ack ∷ acks) = receive_ack agent ack >> receive_acks agent acks

-- The files of `policies_dir`, the newest first.
abbrev pub Files : Type 0
Files = List (String × Bytes)

abbrev pub answer : Bool → PolicyRef → PolicyAck
answer written r = record {
  policy_id = r.policy_id;
  version = r.version;
  status = if written then 1 else 3;
}

-- The loop of `handle_inbound` for a `PolicyUpdate`: each payload is written, where `can_write` lets
-- it, and answered, as long as the channel has room for the answers.
unfoldable pub apply_refs :
    (String → Bool) → (room : ℕ) → List PolicyRef → Files → List PolicyAck × Files
apply_refs can_write room [] files = ([], files)
apply_refs can_write room (r ∷ rs) files =
    let written = can_write r.policy_id in
    let files' = if written then (r.policy_id, r.content_compiled) ∷ files else files in
    elim room [
      | zero ↦ ([], files')
      | suc room' ↦
          (let (acks, files'') = apply_refs can_write room' rs files' in
            (answer written r ∷ acks, files''))
    ]

-- The arm of `handle_inbound` for a `PolicyUpdate`, with whether the directory can be made.
unfoldable pub apply_update :
    (dir_works : Bool)
    → (String → Bool)
    → (room : ℕ) → List PolicyRef
    → Files
    → List PolicyAck × Files
unfolding apply_refs
apply_update dir_works can_write room refs files =
    if dir_works then apply_refs can_write room refs files else ([], files)
