-- ===== src/Cli/Init.antt =====
-- crates/scrooge-cli/src/main.rs, `init_ca`: the root certificate and the certificate of the server.
pub mod Files
use scrooge_dlp.Common.{
  String, Bool, true, false, not, ◌&&◌, ◌||◌, Option, none, some, List, [], ◌∷◌, Outcome, ok, err,
  map_err, if◌then◌else◌,
}
use scrooge_dlp.Certificates.{Rcgen, RootCa, generate, generate_server_csr, sign_csr}
use scrooge_dlp.Cli.Dir.{
  CertDir, any_exists, written, protected, Steps, pure, lift, look, change, ◌>>=◌, ◌>>◌, CliError,
  creating, writing, permissions, ca,
}

-- How `init-ca` ends well.
pub data InitEnd : Type 0 where
  skipped generated : InitEnd

-- The arguments of `init-ca`, the two key pairs that rcgen gives, and the randomness of its three
-- signatures.
pub record InitCa (r : Rcgen) : Type 0 where
  pub ca_cn : String
  pub server_cn : String
  pub san : List String
  pub force : Bool
  pub ca_pair : Option r.KeyPair
  pub server_pair : Option r.KeyPair
  pub ca_seed : r.Seed
  pub request_seed : r.Seed
  pub server_seed : r.Seed

module _ (r : Rcgen) (args : InitCa r) where
  abbrev pub write_ca : RootCa r → Steps (Unit {0})
  write_ca root = do
    change (λ d. record d { ca_pem = written root.cert_pem d.ca_pem }) writing
    change (λ d. record d { ca_key = written root.key_pem d.ca_key }) writing

  abbrev pub write_server : String → String → Steps (Unit {0})
  write_server cert key = do
    change (λ d. record d { server_pem = written cert d.server_pem }) writing
    change (λ d. record d { server_key = written key d.server_key }) writing

  abbrev pub protect : Steps (Unit {0})
  protect = do
    change (λ d. record d { ca_key = protected d.ca_key }) permissions
    change (λ d. record d { server_key = protected d.server_key }) permissions

  -- The part of `init_ca` behind the test for files.
  abbrev pub make : Steps InitEnd
  make = do
    root ← lift (map_err ca (generate r args.ca_seed args.ca_pair args.ca_cn))
    write_ca root
    request ← lift (
        map_err ca
          (generate_server_csr r args.request_seed args.server_pair args.server_cn args.san))
    cert ← lift (map_err ca (sign_csr r args.server_seed root request.0))
    write_server cert request.1
    protect
    pure generated

  -- `init_ca`
  unfoldable pub init_ca : Steps InitEnd
  init_ca = do
    change (λ d. d) creating
    d ← look
    if any_exists d && not args.force then pure skipped else make
