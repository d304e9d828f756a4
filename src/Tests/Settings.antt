-- ===== src/Tests/Settings.antt =====
-- A configuration file of the manager.
use scrooge_dlp.Common.{false, if◌then◌else◌, Option, none, some, ◌≡◌, ◌↔◌, ◌≤◌, refl, ok, is_empty}
use scrooge_dlp.Common.Text.{Text, codes, byte_len}
use scrooge_dlp.Config.Documents.{ManagerDocument, manager_config, load}
use scrooge_dlp.Config.Loads.{manager-load_iff}

-- A document with the fields that have no default.
abbrev pub document : ManagerDocument
document = record {
  server = record {
    grpc_listen_addr = none;
    rest_listen_addr = none;
    tls_cert_path = codes "server.crt";
    tls_key_path = codes "server.key";
    ca_cert_path = codes "ca.crt";
    ca_key_path = codes "ca.key";
    public_grpc_endpoint = none;
    public_rest_base_url = none;
    agent_release_tag = none;
    rest_tls_cert_path = none;
    rest_tls_key_path = none;
  };
  database = record { url = codes "postgres://scrooge"; pool_max = none };
  syslog_forwarder = none;
  auth = record {
    jwt_secret = codes "0123456789abcdef0123456789abcdef";
    access_token_ttl_secs = none;
    refresh_token_ttl_secs = none;
  };
  dashboard = none;
}

abbrev pub reader : Text → Option ManagerDocument
reader text = if is_empty text then none else some document

manager-load_iff_example :
    (load (some (codes "server:")) reader ≡ ok (manager_config document))
    ↔ ((32 ≤ byte_len document.auth.jwt_secret) × (is_empty document.database.url ≡ false))
manager-load_iff_example = manager-load_iff (codes "server:") reader document refl
