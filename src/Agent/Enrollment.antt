-- ===== src/Agent/Enrollment.antt =====
-- crates/scrooge-agent-bin/src/enroll.rs, and crates/scrooge-agent-core/src/system.rs: how an agent
-- asks the manager for an identity. The operating system, the channel (tonic) and the manager behind it
-- are parameters; the manager has a state of its own.
pub mod Joined
use scrooge_dlp.Common.{
  ℕ, String, Bool, true, false, not, Option, none, some, List, [], ◌∷◌, Outcome, ok, err, ok_or,
  err_if, map_err, ◌>>=◌, ◌>>◌, if◌then◌else◌, ◌==◌,
}
use scrooge_dlp.Common.Text.{Text, codes, as_bytes}
use scrooge_dlp.Certificates.{Rcgen, generate_agent_csr}
use scrooge_dlp.Manager.Enroll.{AgentInfo, EnrollRequest, EnrollResponse}
use scrooge_dlp.Agent.Identity.{AgentState, StartError, reading, enrolling, Uuids}
use scrooge_dlp.Agent.Identity

pub record SystemInfo : Type 0 where
  pub hostname : String
  pub os : String
  pub os_version : String
  pub arch : String
  pub agent_version : String

-- What the crates `hostname` and `os_info` and the constants of `std::env` give.
pub record System : Type 0 where
  pub hostname : Option String
  pub os : String
  pub os_version : String
  pub arch : String

-- `collect_system_info`
abbrev pub collect_system_info : System → String → Option SystemInfo
collect_system_info system agent_version = elim system.hostname [
  | none ↦ none
  | some hostname ↦ some (record {
    hostname = hostname;
    os = system.os;
    os_version = system.os_version;
    arch = system.arch;
    agent_version = agent_version;
  })
]

-- `EnrollmentParams`, with the file of the root certificate as it is read.
pub record EnrollmentParams : Type 0 where
  pub endpoint : Text
  pub ca_cert : Option String
  pub enrollment_token : String

-- `endpoint.split(':').next()`
abbrev pub host_of : Text → Text
host_of [] = []
host_of (c ∷ t) = let rest = host_of t in if c == 58 then [] else c ∷ rest

-- The channel under the root certificate, for a host and an endpoint, and the call on it.
pub record Network (Remote : Type 0) : Type 0 where
  pub connects : (root : String) → (host endpoint : Text) → Bool
  pub send : EnrollRequest → Remote → Option EnrollResponse × Remote

abbrev pub info_of : SystemInfo → AgentInfo
info_of info = record {
  hostname = info.hostname;
  os = info.os;
  os_version = info.os_version;
  arch = info.arch;
  agent_version = info.agent_version;
}

abbrev pub request_of : EnrollmentParams → SystemInfo → String → EnrollRequest
request_of params info csr = record {
  info = some (info_of info);
  enrollment_token = params.enrollment_token;
  csr_pem = as_bytes (codes csr);
}

-- The identity and the certificate of an answer.
abbrev pub parts : Option EnrollResponse → Option (Text × Option Text)
parts none = none
parts (some resp) = some (codes resp.agent_id, some (codes resp.cert_pem))

module _ (r : Rcgen) (uuids : Uuids) {Remote : Type 0} (net : Network Remote) (seed : r.Seed)
    (pair : Option r.KeyPair) (params : EnrollmentParams) (info : SystemInfo) where
  -- The part of `enroll` before the call: the request and the private key, as PEM.
  abbrev pub prepare : Outcome StartError (String × String)
  prepare = do
    root ← ok_or params.ca_cert reading
    err_if (not (net.connects root (host_of params.endpoint) params.endpoint)) enrolling
    map_err (λ e. enrolling) (generate_agent_csr r seed pair info.hostname)

  abbrev pub answered :
      String → Option EnrollResponse × Remote → Outcome StartError AgentState × Remote
  answered key (o, m) = (Identity.enroll uuids (codes key) (parts o), m)

  -- `enroll`
  unfoldable pub enroll : Remote → Outcome StartError AgentState × Remote
  enroll m = elim prepare [
    | err e ↦ (err e, m)
    | ok p ↦ answered p.1 (net.send (request_of params info p.0) m)
  ]
