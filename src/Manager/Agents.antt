-- ===== src/Manager/Agents.antt =====
-- crates/scrooge-manager-api/src/handlers/agents.rs: the list of the agents and the commands to them;
-- crates/scrooge-manager-bin/src/grpc.rs: the bridge that carries the commands. Base64 and new
-- identities are parameters.
pub mod Reconnect
use scrooge_dlp.Common.{
  ℕ, String, Bool, not, Option, none, some, List, [], ◌∷◌, Outcome, ok, err, ok_or, err_if,
  if◌then◌else◌, str_eq, ◌==◌, ltb, any, map,
}
use scrooge_dlp.Common.Sort.{sort_by}
use scrooge_dlp.Manager.World.{Uuid, Bytes, AgentRow, Action, pure, lift, select, ◌>>=◌, ◌>>◌}
use scrooge_dlp.Manager.Api.{
  ApiError, bad_request, unknown_command, payload_b64_invalid, service_unavailable, not_found,
  database, Claims, require_admin,
}
use scrooge_dlp.Manager.Registry.{AgentTx, AgentRegistry, get}

-- `AgentDto`, without the columns that may be NULL and are not here.
pub record AgentDto : Type 0 where
  pub id : Uuid
  pub hostname : String
  pub os : String
  pub os_version : String
  pub arch : String
  pub agent_version : String
  pub status : String
  pub enrolled_at : ℕ
  pub last_seen : ℕ

abbrev pub to_dto : AgentRow → AgentDto
to_dto r = record {
  id = r.id;
  hostname = r.hostname;
  os = r.os;
  os_version = r.os_version;
  arch = r.arch;
  agent_version = r.agent_version;
  status = r.status;
  enrolled_at = r.enrolled_at;
  last_seen = r.last_seen;
}

-- `ORDER BY enrolled_at DESC`
abbrev pub is_newer : AgentRow → AgentRow → Bool
is_newer a b = ltb b.enrolled_at a.enrolled_at

-- `list`, for every bearer of a token.
unfoldable pub list : Claims → Action ApiError (List AgentDto)
list claims = select (λ w. map to_dto (sort_by is_newer w.agents)) database

pub record SendCommandRequest : Type 0 where
  pub command_type : String
  pub payload_b64 : Option String

pub record SendCommandResponse : Type 0 where
  pub command_id : String
  pub command_type : String

-- `AgentCommandRequest`, what goes to the bridge.
pub record AgentCommandRequest : Type 0 where
  pub agent_id : Uuid
  pub command_type : ℕ
  pub payload : Bytes
  pub command_id : String

-- `CommandType`
abbrev pub command_number : String → Option ℕ
command_number s =
    if str_eq s "refresh_policies"
    then some 1
    else if str_eq s "collect_diagnostics"
    then some 2
    else if str_eq s "update_tags"
    then some 3
    else none

-- The base64 decoder, `Uuid::new_v4` as text, and the channel to the bridge: none, or whether it is
-- open.
pub record CommandState : Type 0 where
  pub decode_b64 : String → Option Bytes
  pub new_v4 : String
  pub command_tx : Option Bool

abbrev pub decode_payload : CommandState → Option String → Outcome ApiError Bytes
decode_payload state none = ok []
decode_payload state (some b64) = ok_or (state.decode_b64 b64) (bad_request payload_b64_invalid)

abbrev pub check_bridge : Option Bool → Outcome ApiError (Unit {0})
check_bridge none = err (service_unavailable "command bridge unavailable")
check_bridge (some is_open) = err_if (not is_open) (service_unavailable "command bridge closed")

module _ (state : CommandState) (claims : Claims) where
  -- `send_command`, with the request that it gives to the bridge.
  unfoldable pub send_command :
      Uuid → SendCommandRequest → Action ApiError (SendCommandResponse × AgentCommandRequest)
  send_command agent req = do
    lift (require_admin claims)
    number ←
        lift
          (ok_or (command_number req.command_type) (bad_request (unknown_command req.command_type)))
    exists ← select (λ w. any (λ a. a.id == agent) w.agents) database
    lift (err_if (not exists) not_found)
    payload ← lift (decode_payload state req.payload_b64)
    lift (check_bridge state.command_tx)
    pure (
      record { command_id = state.new_v4; command_type = req.command_type },
      record {
        agent_id = agent;
        command_type = number;
        payload = payload;
        command_id = state.new_v4;
      },
    )

-- `Command`
pub record Command : Type 0 where
  pub command_id : String
  pub command_type : ℕ
  pub payload : Bytes

-- `run_command_bridge`: the commands on the channels of the agents, where the registry stands as it
-- does when each request comes, and `is_open` says which channels take a message. A command for an
-- agent that is not connected is dropped.
unfoldable pub run_command_bridge :
    (is_open : AgentTx → Bool)
    → List (AgentRegistry × AgentCommandRequest)
    → List (AgentTx × Command)
run_command_bridge is_open [] = []
run_command_bridge is_open ((registry, req) ∷ reqs) =
    let rest = run_command_bridge is_open reqs in
    elim (get req.agent_id registry) [
      | none ↦ rest
      | some tx ↦
          if is_open tx
          then (
            tx,
            record {
              command_id = req.command_id;
              command_type = req.command_type;
              payload = req.payload;
            },
          )
            ∷ rest
          else rest
    ]
