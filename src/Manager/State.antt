-- ===== src/Manager/State.antt =====
-- crates/scrooge-manager-api/src/state.rs: the state of the API as the configuration makes it, and
-- handlers/dashboard.rs: the preferences that the dashboard reads.
use scrooge_dlp.Common.{ℕ, Bool, Option}
use scrooge_dlp.Common.Text.{Text}
use scrooge_dlp.Config.Manager.{
  ManagerServerConfig, AuthConfig, AutoRefreshConfig, SessionConfig, DashboardConfig,
}
use scrooge_dlp.Manager.Install.{InstallConfig}

-- `AuthMaterial`, with the one secret of both keys.
pub record AuthMaterial : Type 0 where
  pub secret : Text
  pub access_ttl_secs : ℕ
  pub refresh_ttl_secs : ℕ

-- `Inner` but for the pool; a channel is known by its capacity.
pub record Inner : Type 0 where
  pub auth : AuthMaterial
  pub dashboard : DashboardConfig
  pub install : InstallConfig
  pub command_tx : Option ℕ
  pub policy_push_tx : Option ℕ

-- `AppState::new`
unfoldable pub new :
    AuthConfig → DashboardConfig → ManagerServerConfig → Option ℕ → Option ℕ → Inner
new auth_cfg dashboard server_cfg command_tx policy_push_tx = record {
  auth = record {
    secret = auth_cfg.jwt_secret;
    access_ttl_secs = auth_cfg.access_token_ttl_secs;
    refresh_ttl_secs = auth_cfg.refresh_token_ttl_secs;
  };
  dashboard = dashboard;
  install = record {
    public_grpc_endpoint = server_cfg.public_grpc_endpoint;
    public_rest_base_url = server_cfg.public_rest_base_url;
    agent_release_tag = server_cfg.agent_release_tag;
    ca_cert_path = server_cfg.ca_cert_path;
  };
  command_tx = command_tx;
  policy_push_tx = policy_push_tx;
}

pub record AutoRefreshDto : Type 0 where
  pub enabled : Bool
  pub interval_secs : ℕ
  pub mode : Text

pub record SessionDto : Type 0 where
  pub idle_timeout_secs : ℕ
  pub absolute_timeout_secs : ℕ
  pub warn_before_secs : ℕ
  pub extend_on_activity : Bool

pub record DashboardConfigDto : Type 0 where
  pub auto_refresh : AutoRefreshDto
  pub session : SessionDto

abbrev pub from_auto_refresh : AutoRefreshConfig → AutoRefreshDto
from_auto_refresh c = record { enabled = c.enabled; interval_secs = c.interval_secs; mode = c.mode }

abbrev pub from_session : SessionConfig → SessionDto
from_session c = record {
  idle_timeout_secs = c.idle_timeout_secs;
  absolute_timeout_secs = c.absolute_timeout_secs;
  warn_before_secs = c.warn_before_secs;
  extend_on_activity = c.extend_on_activity;
}

abbrev pub from_dashboard : DashboardConfig → DashboardConfigDto
from_dashboard c = record {
  auto_refresh = from_auto_refresh c.auto_refresh;
  session = from_session c.session;
}

-- `config`, the handler for the dashboard, which asks for no token.
abbrev pub config : Inner → DashboardConfigDto
config state = from_dashboard state.dashboard
