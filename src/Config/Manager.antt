-- ===== src/Config/Manager.antt =====
-- config.rs: the configuration of the manager.
use scrooge_dlp.Common.{ℕ, Bool, true, false, Option, none, List, [], ◌*◌}
use scrooge_dlp.Common.Text.{Text, codes}

pub record ManagerServerConfig : Type 0 where
  pub grpc_listen_addr : Text
  pub rest_listen_addr : Text
  pub tls_cert_path : Text
  pub tls_key_path : Text
  pub ca_cert_path : Text
  pub ca_key_path : Text
  pub public_grpc_endpoint : Option Text
  pub public_rest_base_url : Option Text
  pub agent_release_tag : Option Text
  pub rest_tls_cert_path : Option Text
  pub rest_tls_key_path : Option Text

pub record DatabaseConfig : Type 0 where
  pub url : Text
  pub pool_max : ℕ

pub record SyslogTls : Type 0 where
  pub verify : Bool
  pub ca_cert_path : Option Text
  pub client_cert_path : Option Text
  pub client_key_path : Option Text

pub record SyslogDestination : Type 0 where
  pub host : Text
  pub port : ℕ
  pub protocol : Text
  pub tls : Option SyslogTls

pub record SyslogFilters : Type 0 where
  pub min_severity : Text
  pub respect_per_rule_flag : Bool
  pub include_event_types : List Text
  pub exclude_event_types : List Text

pub record SyslogForwarderConfig : Type 0 where
  pub enabled : Bool
  pub destination : Option SyslogDestination
  pub filters : SyslogFilters

pub record AuthConfig : Type 0 where
  pub jwt_secret : Text
  pub access_token_ttl_secs : ℕ
  pub refresh_token_ttl_secs : ℕ

pub record AutoRefreshConfig : Type 0 where
  pub enabled : Bool
  pub interval_secs : ℕ
  pub mode : Text

pub record SessionConfig : Type 0 where
  pub idle_timeout_secs : ℕ
  pub absolute_timeout_secs : ℕ
  pub warn_before_secs : ℕ
  pub extend_on_activity : Bool

pub record DashboardConfig : Type 0 where
  pub auto_refresh : AutoRefreshConfig
  pub session : SessionConfig

pub record ManagerConfig : Type 0 where
  pub server : ManagerServerConfig
  pub database : DatabaseConfig
  pub syslog_forwarder : SyslogForwarderConfig
  pub auth : AuthConfig
  pub dashboard : DashboardConfig

abbrev pub default_grpc_addr : Text
default_grpc_addr = codes "0.0.0.0:5443"

abbrev pub default_rest_addr : Text
default_rest_addr = codes "0.0.0.0:55000"

abbrev pub default_pool_max : ℕ
default_pool_max = 16

abbrev pub default_protocol : Text
default_protocol = codes "tcp_tls"

abbrev pub default_min_severity : Text
default_min_severity = codes "medium"

abbrev pub default_access_token_ttl_secs : ℕ
default_access_token_ttl_secs = 3600

abbrev pub default_refresh_token_ttl_secs : ℕ
default_refresh_token_ttl_secs = 30 * 24 * 3600

abbrev pub default_refresh_interval_secs : ℕ
default_refresh_interval_secs = 10

abbrev pub default_refresh_mode : Text
default_refresh_mode = codes "active_only"

abbrev pub default_idle_timeout_secs : ℕ
default_idle_timeout_secs = 3600

abbrev pub default_absolute_timeout_secs : ℕ
default_absolute_timeout_secs = 3600

abbrev pub default_warn_before_secs : ℕ
default_warn_before_secs = 60

-- `SyslogFilters::default`
abbrev pub default_filters : SyslogFilters
default_filters = record {
  min_severity = default_min_severity;
  respect_per_rule_flag = true;
  include_event_types = [];
  exclude_event_types = [];
}

-- `SyslogForwarderConfig::default`, which is derived.
abbrev pub default_forwarder : SyslogForwarderConfig
default_forwarder = record { enabled = false; destination = none; filters = default_filters }

-- `AutoRefreshConfig::default`
abbrev pub default_auto_refresh : AutoRefreshConfig
default_auto_refresh = record {
  enabled = true;
  interval_secs = default_refresh_interval_secs;
  mode = default_refresh_mode;
}

-- `SessionConfig::default`
abbrev pub default_session : SessionConfig
default_session = record {
  idle_timeout_secs = default_idle_timeout_secs;
  absolute_timeout_secs = default_absolute_timeout_secs;
  warn_before_secs = default_warn_before_secs;
  extend_on_activity = false;
}

-- `DashboardConfig::default`, which is derived.
abbrev pub default_dashboard : DashboardConfig
default_dashboard = record { auto_refresh = default_auto_refresh; session = default_session }
