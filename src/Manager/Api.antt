-- ===== src/Manager/Api.antt =====
-- crates/scrooge-manager-api: the errors of the REST API (error.rs), the claims of a token (auth.rs)
-- and the state that the handlers share (state.rs).
use scrooge_dlp.Common.{ℕ, String, Bool, Option, Outcome, ok, err, if◌then◌else◌, str_eq}
use scrooge_dlp.Common.Int.{ℤ}
use scrooge_dlp.Policy.Defs.{Policy, PolicyError, Targets}
use scrooge_dlp.Policy.Compile.{Codecs}
use scrooge_dlp.Manager.World.{Uuid}

-- What the messages of `BadRequest` quote.
pub data BadRequest : Type 0 where
  policy : PolicyError → BadRequest
  already_exists : String → BadRequest
  name_mismatch : (url yaml : String) → BadRequest
  invalid_severity : String → BadRequest
  unknown_command : String → BadRequest
  payload_b64_invalid : BadRequest
  unknown_target_os : String → BadRequest

pub data ApiError : Type 0 where
  invalid_credentials invalid_token unauthorized forbidden not_found : ApiError
  bad_request : BadRequest → ApiError
  service_unavailable : String → ApiError
  database : ApiError
  internal : String → ApiError

-- `into_response`: the HTTP status and the code of the body.
unfoldable pub into_response : ApiError → ℕ × String
into_response invalid_credentials = (401, "invalid_credentials")
into_response invalid_token = (401, "invalid_token")
into_response unauthorized = (401, "unauthorized")
into_response forbidden = (403, "forbidden")
into_response not_found = (404, "not_found")
into_response (bad_request b) = (400, "bad_request")
into_response (service_unavailable s) = (503, "service_unavailable")
into_response database = (500, "database_error")
into_response (internal s) = (500, "internal_error")

pub record Claims : Type 0 where
  pub sub : String
  pub username : String
  pub role : String
  pub exp : ℤ
  pub iat : ℤ

-- `Claims::require_admin`
abbrev pub require_admin : Claims → Outcome ApiError (Unit {0})
require_admin c = if str_eq c.role "admin" then ok tt else err forbidden

-- What a handler has at hand: the codecs of the policy crate, `serde_json::to_value`, the parser of
-- UUIDs, the collation of the names, the room in the channel of push requests (`none` if no bridge is attached), and the clock.
pub record AppState : Type 0 where
  pub codecs : Codecs
  pub targets_json : Targets → Option String
  pub policy_json : Policy → Option String
  pub parse_uuid : String → Option Uuid
  pub name_before : String → String → Bool
  pub push_capacity : Option ℕ
  pub now : ℕ
