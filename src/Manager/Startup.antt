-- ===== src/Manager/Startup.antt =====
-- crates/scrooge-manager-bin/src/main.rs, `main`, and grpc.rs, `tls_config`: what the manager reads
-- before its servers start. The file system, YAML, PostgreSQL and its migrations and the parser of
-- addresses are parameters.
pub mod Filled
use scrooge_dlp.Common.{
  ℕ, String, Bool, true, false, not, Option, none, some, Outcome, ok, err, ok_or, err_if, map_err,
  ◌>>=◌, ◌>>◌,
}
use scrooge_dlp.Common.Text.{Text}
use scrooge_dlp.Config.Documents.{ManagerDocument, load}
use scrooge_dlp.Config.Manager.{ManagerConfig, ManagerServerConfig}
use scrooge_dlp.Certificates.{Rcgen, RootCa, load_from_files}
use scrooge_dlp.Manager.World.{World}
use scrooge_dlp.Manager.State.{Inner, new}

pub data StartupError : Type 0 where
  config ca database migrations address tls : StartupError

-- What the manager finds: its file of the configuration, the other files by their paths, whether
-- PostgreSQL takes a connection at a URL, `sqlx::migrate!`, and which texts parse as addresses.
pub record Surroundings : Type 0 where
  pub contents : Option Text
  pub from_str : Text → Option ManagerDocument
  pub read : Text → Option String
  pub connects : Text → Bool
  pub migrate : World → Option World
  pub is_socket_addr : Text → Bool

-- `ServerTlsConfig`: the identity of the server, and the root that signs the clients, who need no
-- certificate.
pub record ServerTlsConfig : Type 0 where
  pub cert : String
  pub key : String
  pub client_ca_root : String
  pub client_auth_optional : Bool

-- `RestTlsConfig`
pub record RestTlsConfig : Type 0 where
  pub cert_path : Text
  pub key_path : Text

-- HTTPS where both paths are set, plain HTTP otherwise.
abbrev pub rest_tls : Option Text → Option Text → Option RestTlsConfig
rest_tls (some cert) (some key) = some (record { cert_path = cert; key_path = key })
rest_tls (some cert) none = none
rest_tls none key = none

-- The capacity of the channels from the API to the bridges.
abbrev pub bridge_capacity : ℕ
bridge_capacity = 64

-- The seed is the randomness of the root's signature on itself.
module _ (r : Rcgen) (at : Surroundings) (seed : r.Seed) where
  -- `tls_config`
  abbrev pub tls_config : ManagerServerConfig → Outcome StartupError ServerTlsConfig
  tls_config server = do
    cert ← ok_or (at.read server.tls_cert_path) tls
    key ← ok_or (at.read server.tls_key_path) tls
    root ← ok_or (at.read server.ca_cert_path) tls
    ok (record { cert = cert; key = key; client_ca_root = root; client_auth_optional = true })

  -- What the two servers start with.
  pub record Servers : Type 0 where
    pub ca : RootCa r
    pub state : Inner
    pub tls : ServerTlsConfig
    pub rest : Option RestTlsConfig

  -- The part of `main` before the migrations.
  abbrev pub prepare : Outcome StartupError (ManagerConfig × RootCa r)
  prepare = do
    c ← map_err (λ e. config) (load at.contents at.from_str)
    root ←
        map_err (λ e. ca)
          (load_from_files r seed (at.read c.server.ca_cert_path) (at.read c.server.ca_key_path))
    err_if (not (at.connects c.database.url)) database
    ok (c, root)

  -- The part of `main` behind the migrations.
  abbrev pub assemble : ManagerConfig → RootCa r → Outcome StartupError Servers
  assemble c root = do
    err_if (not (at.is_socket_addr c.server.grpc_listen_addr)) address
    err_if (not (at.is_socket_addr c.server.rest_listen_addr)) address
    identity ← tls_config c.server
    ok (record {
      ca = root;
      state = new c.auth c.dashboard c.server (some bridge_capacity) (some bridge_capacity);
      tls = identity;
      rest = rest_tls c.server.rest_tls_cert_path c.server.rest_tls_key_path;
    })

  abbrev pub migrated :
      ManagerConfig × RootCa r → World → Option World → Outcome StartupError Servers × World
  migrated p w none = (err migrations, w)
  migrated p w (some w') = (assemble p.0 p.1, w')

  -- `main`, up to the start of the servers, with the database that it leaves.
  unfoldable pub start_up : World → Outcome StartupError Servers × World
  start_up w = elim prepare [ err e ↦ (err e, w) | ok p ↦ migrated p w (at.migrate w) ]
