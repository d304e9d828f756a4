-- ===== src/Manager/Stream.antt =====
-- crates/scrooge-manager-bin/src/grpc.rs, `stream`: a connected agent from the check of its certificate
-- to the end of its session. X.509 and the parser of UUIDs are parameters.
pub mod Rows
pub mod Sessions
use scrooge_dlp.Common.{
  ℕ, String, Bool, true, false, not, Option, none, some, List, [], ◌∷◌, Outcome, ok, err, ok_or,
  err_if, ◌>>=◌, ◌>>◌, if◌then◌else◌, str_eq, ◌==◌, any,
}
use scrooge_dlp.Manager.World.{Uuid, Bytes, World, Faults, AgentRow, fails_now, execute}
use scrooge_dlp.Manager.Push.{PolicyAck, receive_ack, logged}
use scrooge_dlp.Manager.Registry.{AgentTx, AgentRegistry, register, unregister}
use scrooge_dlp.Manager.Details.{Event}
use scrooge_dlp.Manager.Events.{EventRow, Sources, insert_event_batch}
use scrooge_dlp.Manager.Enroll.{Status, unauthenticated, internal}

-- `peer_certs`, `X509Certificate::from_der`, the first common name of a subject as text, and
-- `Uuid::parse_str`.
pub record Certificates (Cert : Type 0) : Type 0 where
  pub from_der : Bytes → Option Cert
  pub common_name : Cert → Option String
  pub parse_uuid : String → Option Uuid

abbrev pub first : List Bytes → Option Bytes
first [] = none
first (c ∷ cs) = some c

module _ {Cert : Type 0} (x509 : Certificates Cert) where
  -- `extract_agent_id`
  unfoldable pub extract_agent_id : Option (List Bytes) → Outcome Status Uuid
  extract_agent_id peer_certs = do
    certs ← ok_or peer_certs (unauthenticated "client cert required (mTLS)")
    der ← ok_or (first certs) (unauthenticated "no client cert in peer chain")
    cert ← ok_or (x509.from_der der) (unauthenticated "invalid client cert (X.509 parse)")
    cn ← ok_or (x509.common_name cert) (unauthenticated "client cert subject has no CN")
    ok_or (x509.parse_uuid cn) (unauthenticated "client cert CN is not a UUID")

  -- The checks of `stream`, where the query for the agent may fail.
  unfoldable pub accept : Option (List Bytes) → Bool → World → Outcome Status Uuid
  unfolding extract_agent_id
  accept peer_certs fails w = do
    agent ← extract_agent_id peer_certs
    exists ←
        (if fails then err (internal "database error") else ok (any (λ a. a.id == agent) w.agents))
    err_if (not exists) (unauthenticated "agent not enrolled")
    ok agent

-- `AgentMessage` by its payload.
pub data AgentMessage : Type 0 where
  heartbeat : (agent_version : String) → AgentMessage
  policy_ack : PolicyAck → AgentMessage
  events : List Event → AgentMessage
  event : Event → AgentMessage
  other : AgentMessage

-- What the loop of a session receives. A message comes with the time, with the queries that fail,
-- with the sources of its rows, and with whether its answer can be sent.
pub data Inbound : Type 0 where
  arrived : AgentMessage → (now : ℕ) → Faults → Sources → (answered : Bool) → Inbound
  inbound_error : Inbound

-- What the sessions share: the database, with the table of the events apart, and the registry.
pub record Service : Type 0 where
  pub world : World
  pub stored : List EventRow
  pub registry : AgentRegistry

-- `COALESCE(NULLIF($1, ''), agent_version)`
abbrev pub version_or : String → String → String
version_or new old = if str_eq new "" then old else new

abbrev pub see_agent : Uuid → ℕ → String → List AgentRow → List AgentRow
see_agent agent now version [] = []
see_agent agent now version (a ∷ rows) =
    (if a.id == agent
      then record a { last_seen = now; agent_version = version_or version a.agent_version }
      else a)
    ∷ see_agent agent now version rows

-- `UPDATE agents SET last_seen = NOW(), agent_version = ..`
abbrev pub touch_agent : Uuid → ℕ → String → World → World
touch_agent agent now version w = record w { agents = see_agent agent now version w.agents }

module _ (agent : Uuid) where
  -- The arms of the loop, with whether it goes on.
  unfoldable pub receive : AgentMessage → ℕ → Faults → Sources → Bool → Service → Bool × Service
  receive (heartbeat version) now fs sources answered s =
      (answered, record s { world = (logged (touch_agent agent now version) fs s.world).2 })
  receive (policy_ack ack) now fs sources answered s =
      (true, record s { world = (receive_ack agent ack fs s.world).2 })
  receive (events evs) now fs sources answered s =
      (true, record s { stored = (insert_event_batch sources agent evs fs s.stored).1 })
  receive (event ev) now fs sources answered s =
      (true, record s { stored = (insert_event_batch sources agent (ev ∷ []) fs s.stored).1 })
  receive other now fs sources answered s = (true, s)

  -- The loop, to the end of the inbound messages or to an error, and the `unregister` after it.
  unfoldable pub inbound_loop : List Inbound → Service → Service
  unfolding receive unregister
  inbound_loop [] s = record s { registry = unregister agent s.registry }
  inbound_loop (inbound_error ∷ ins) s = record s { registry = unregister agent s.registry }
  inbound_loop (arrived m now fs sources answered ∷ ins) s =
      let (goes_on, s') = receive m now fs sources answered s in
      let rest = inbound_loop ins s' in
      if goes_on then rest else record s' { registry = unregister agent s'.registry }

  -- The session of an accepted agent on its channel, up to its end.
  unfoldable pub session : AgentTx → List Inbound → Service → Service
  unfolding register inbound_loop
  session tx ins s = inbound_loop ins (record s { registry = register agent tx s.registry })
