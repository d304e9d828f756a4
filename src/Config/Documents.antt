-- ===== src/Config/Documents.antt =====
-- config.rs: the documents of the manager, with the defaults that `serde` fills in, and the load.
use scrooge_dlp.Common.{
  ℕ, Bool, false, Option, none, some, List, [], Outcome, ok, ok_or, err_if, ◌>>=◌, ◌>>◌, is_empty,
  ltb,
}
use scrooge_dlp.Common.Text.{Text, byte_len}
use scrooge_dlp.Config.{
  ConfigError, io, yaml, missing_field, invalid_value, or_default, default_true,
}
use scrooge_dlp.Config.Manager.{
  ManagerServerConfig, SyslogTls, SyslogDestination, SyslogFilters, SyslogForwarderConfig,
  AuthConfig, AutoRefreshConfig, SessionConfig, DashboardConfig, ManagerConfig, default_grpc_addr,
  default_rest_addr, default_pool_max, default_protocol, default_min_severity,
  default_access_token_ttl_secs, default_refresh_token_ttl_secs, default_refresh_interval_secs,
  default_refresh_mode, default_idle_timeout_secs, default_absolute_timeout_secs,
  default_warn_before_secs, default_filters, default_forwarder, default_auto_refresh,
  default_session, default_dashboard,
}

pub record ServerDocument : Type 0 where
  pub grpc_listen_addr : Option Text
  pub rest_listen_addr : Option Text
  pub tls_cert_path : Text
  pub tls_key_path : Text
  pub ca_cert_path : Text
  pub ca_key_path : Text
  pub public_grpc_endpoint : Option Text
  pub public_rest_base_url : Option Text
  pub agent_release_tag : Option Text
  pub rest_tls_cert_path : Option Text
  pub rest_tls_key_path : Option Text

pub record DatabaseDocument : Type 0 where
  pub url : Text
  pub pool_max : Option ℕ

pub record TlsDocument : Type 0 where
  pub verify : Option Bool
  pub ca_cert_path : Option Text
  pub client_cert_path : Option Text
  pub client_key_path : Option Text

pub record DestinationDocument : Type 0 where
  pub host : Text
  pub port : ℕ
  pub protocol : Option Text
  pub tls : Option TlsDocument

pub record FiltersDocument : Type 0 where
  pub min_severity : Option Text
  pub respect_per_rule_flag : Option Bool
  pub include_event_types : Option (List Text)
  pub exclude_event_types : Option (List Text)

pub record ForwarderDocument : Type 0 where
  pub enabled : Option Bool
  pub destination : Option DestinationDocument
  pub filters : Option FiltersDocument

pub record AuthDocument : Type 0 where
  pub jwt_secret : Text
  pub access_token_ttl_secs : Option ℕ
  pub refresh_token_ttl_secs : Option ℕ

pub record AutoRefreshDocument : Type 0 where
  pub enabled : Option Bool
  pub interval_secs : Option ℕ
  pub mode : Option Text

pub record SessionDocument : Type 0 where
  pub idle_timeout_secs : Option ℕ
  pub absolute_timeout_secs : Option ℕ
  pub warn_before_secs : Option ℕ
  pub extend_on_activity : Option Bool

pub record DashboardDocument : Type 0 where
  pub auto_refresh : Option AutoRefreshDocument
  pub session : Option SessionDocument

pub record ManagerDocument : Type 0 where
  pub server : ServerDocument
  pub database : DatabaseDocument
  pub syslog_forwarder : Option ForwarderDocument
  pub auth : AuthDocument
  pub dashboard : Option DashboardDocument

-- A section that may be left out.
abbrev pub section {ℓ} : {D C : Type ℓ} → Option D → (D → C) → C → C
section none f d = d
section (some x) f d = f x

abbrev pub server_config : ServerDocument → ManagerServerConfig
server_config d = record {
  grpc_listen_addr = or_default d.grpc_listen_addr default_grpc_addr;
  rest_listen_addr = or_default d.rest_listen_addr default_rest_addr;
  tls_cert_path = d.tls_cert_path;
  tls_key_path = d.tls_key_path;
  ca_cert_path = d.ca_cert_path;
  ca_key_path = d.ca_key_path;
  public_grpc_endpoint = d.public_grpc_endpoint;
  public_rest_base_url = d.public_rest_base_url;
  agent_release_tag = d.agent_release_tag;
  rest_tls_cert_path = d.rest_tls_cert_path;
  rest_tls_key_path = d.rest_tls_key_path;
}

abbrev pub tls_config : TlsDocument → SyslogTls
tls_config d = record {
  verify = or_default d.verify default_true;
  ca_cert_path = d.ca_cert_path;
  client_cert_path = d.client_cert_path;
  client_key_path = d.client_key_path;
}

abbrev pub destination_config : DestinationDocument → SyslogDestination
destination_config d = record {
  host = d.host;
  port = d.port;
  protocol = or_default d.protocol default_protocol;
  tls = section d.tls (λ t. some (tls_config t)) none;
}

abbrev pub filters_config : FiltersDocument → SyslogFilters
filters_config d = record {
  min_severity = or_default d.min_severity default_min_severity;
  respect_per_rule_flag = or_default d.respect_per_rule_flag default_true;
  include_event_types = or_default d.include_event_types [];
  exclude_event_types = or_default d.exclude_event_types [];
}

abbrev pub forwarder_config : ForwarderDocument → SyslogForwarderConfig
forwarder_config d = record {
  enabled = or_default d.enabled false;
  destination = section d.destination (λ x. some (destination_config x)) none;
  filters = section d.filters filters_config default_filters;
}

abbrev pub auth_config : AuthDocument → AuthConfig
auth_config d = record {
  jwt_secret = d.jwt_secret;
  access_token_ttl_secs = or_default d.access_token_ttl_secs default_access_token_ttl_secs;
  refresh_token_ttl_secs = or_default d.refresh_token_ttl_secs default_refresh_token_ttl_secs;
}

abbrev pub auto_refresh_config : AutoRefreshDocument → AutoRefreshConfig
auto_refresh_config d = record {
  enabled = or_default d.enabled default_true;
  interval_secs = or_default d.interval_secs default_refresh_interval_secs;
  mode = or_default d.mode default_refresh_mode;
}

abbrev pub session_config : SessionDocument → SessionConfig
session_config d = record {
  idle_timeout_secs = or_default d.idle_timeout_secs default_idle_timeout_secs;
  absolute_timeout_secs = or_default d.absolute_timeout_secs default_absolute_timeout_secs;
  warn_before_secs = or_default d.warn_before_secs default_warn_before_secs;
  extend_on_activity = or_default d.extend_on_activity false;
}

abbrev pub dashboard_config : DashboardDocument → DashboardConfig
dashboard_config d = record {
  auto_refresh = section d.auto_refresh auto_refresh_config default_auto_refresh;
  session = section d.session session_config default_session;
}

abbrev pub manager_config : ManagerDocument → ManagerConfig
manager_config d = record {
  server = server_config d.server;
  database = record {
    url = d.database.url;
    pool_max = or_default d.database.pool_max default_pool_max;
  };
  syslog_forwarder = section d.syslog_forwarder forwarder_config default_forwarder;
  auth = auth_config d.auth;
  dashboard = section d.dashboard dashboard_config default_dashboard;
}

-- `ManagerConfig::validate`
unfoldable pub validate : ManagerConfig → Outcome ConfigError (Unit {0})
validate c = do
  err_if (ltb (byte_len c.auth.jwt_secret) 32)
      (invalid_value "auth.jwt_secret" "must be at least 32 characters")
  err_if (is_empty c.database.url) (missing_field "database.url")

-- `ManagerConfig::load`
unfoldable pub load :
    Option Text → (Text → Option ManagerDocument) → Outcome ConfigError ManagerConfig
unfolding validate
load contents from_str = do
  text ← ok_or contents io
  document ← ok_or (from_str text) yaml
  let config = manager_config document
  validate config
  ok config
