-- ===== src/Config.antt =====
-- crates/scrooge-common/src/config.rs: the configuration of the agent and of the manager. The text of a
-- file and its YAML are parameters: a document is a record with `none` for each field that is left out
-- and has a default.
pub mod Manager
pub mod Documents
pub mod Loads
use scrooge_dlp.Common.{
  ℕ, String, Bool, true, false, not, Option, none, some, List, [], ◌∷◌, Outcome, ok, err, ok_or,
  err_if, ◌>>=◌, ◌>>◌, if◌then◌else◌, is_empty, any, ◌==◌,
}
use scrooge_dlp.Common.Text.{Text, codes}

-- `ConfigError`, where `io` and `yaml` stand for the errors of the libraries.
pub data ConfigError : Type 0 where
  io yaml : ConfigError
  missing_field : String → ConfigError
  invalid_value : (field message : String) → ConfigError

abbrev pub or_default {ℓ} : {A : Type ℓ} → Option A → A → A
or_default none d = d
or_default (some a) d = a

-- `AgentManagerConfig`
pub record AgentManagerConfig : Type 0 where
  pub endpoint : Text
  pub enrollment_token : Option Text
  pub verify_tls : Bool
  pub ca_cert_path : Text

-- `AgentRuntimeConfig`
pub record AgentRuntimeConfig : Type 0 where
  pub data_dir : Text
  pub log_level : Text
  pub heartbeat_interval_secs : ℕ
  pub watch_paths : List Text

pub record AgentConfig : Type 0 where
  pub manager : AgentManagerConfig
  pub agent : AgentRuntimeConfig

-- The document of an agent.
pub record AgentDocument : Type 0 where
  pub endpoint : Text
  pub enrollment_token : Option Text
  pub verify_tls : Option Bool
  pub ca_cert_path : Text
  pub data_dir : Text
  pub log_level : Option Text
  pub heartbeat_interval_secs : Option ℕ
  pub watch_paths : Option (List Text)

abbrev pub default_true : Bool
default_true = true

abbrev pub default_log_level : Text
default_log_level = codes "info"

abbrev pub default_heartbeat_interval_secs : ℕ
default_heartbeat_interval_secs = 30

-- The defaults of `serde`.
abbrev pub agent_config : AgentDocument → AgentConfig
agent_config d = record {
  manager = record {
    endpoint = d.endpoint;
    enrollment_token = d.enrollment_token;
    verify_tls = or_default d.verify_tls default_true;
    ca_cert_path = d.ca_cert_path;
  };
  agent = record {
    data_dir = d.data_dir;
    log_level = or_default d.log_level default_log_level;
    heartbeat_interval_secs = or_default d.heartbeat_interval_secs default_heartbeat_interval_secs;
    watch_paths = or_default d.watch_paths [];
  };
}

-- `AgentConfig::validate`
unfoldable pub validate : AgentConfig → Outcome ConfigError (Unit {0})
validate c = do
  err_if (is_empty c.manager.endpoint) (missing_field "manager.endpoint")
  err_if (not (any (λ x. x == 58) c.manager.endpoint))
      (invalid_value "manager.endpoint" "expected `host:port`")
  err_if (is_empty c.agent.data_dir) (missing_field "agent.data_dir")

-- `AgentConfig::load`, from what `read_to_string` gives and the reader of YAML.
unfoldable pub load : Option Text → (Text → Option AgentDocument) → Outcome ConfigError AgentConfig
unfolding validate
load contents from_str = do
  text ← ok_or contents io
  document ← ok_or (from_str text) yaml
  let config = agent_config document
  validate config
  ok config
