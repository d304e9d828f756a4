-- ===== src/Manager/Startup/Filled.antt =====
-- scrooge-cli and scrooge-manager together: a manager that starts on the directory which `init-ca`
-- filled.
use scrooge_dlp.Common.{String, Bool, true, some, List, ◌≡◌, refl, ap, ◌∙◌, ok}
use scrooge_dlp.Config.Documents.{load}
use scrooge_dlp.Config.Manager.{ManagerConfig}
use scrooge_dlp.Certificates.{Rcgen, RootCa, generate, generate_server_csr, sign_csr}
use scrooge_dlp.Certificates.Reload.{X509, Signs, IssuesFor, load_from_files-generate}
use scrooge_dlp.Cli.Dir.{CertDir}
use scrooge_dlp.Cli.Init.{InitCa, generated, init_ca}
use scrooge_dlp.Cli.Init.Files.{text_of, init_ca-IsComplete}
use scrooge_dlp.Manager.World.{World}
use scrooge_dlp.Manager.State.{new}
use scrooge_dlp.Manager.Startup.{
  Surroundings, Servers, prepare, start_up, rest_tls, bridge_capacity,
}

module _ {r : Rcgen} (x509 : X509 r) (args : InitCa r) (at : Surroundings) (seed : r.Seed) where
  -- The manager finds the files of this directory at the paths of its configuration.
  pub record Mounted (c : ManagerConfig) (d : CertDir) : Type 0 where
    pub ca_pem : at.read c.server.ca_cert_path ≡ text_of d.ca_pem
    pub ca_key : at.read c.server.ca_key_path ≡ text_of d.ca_key
    pub server_pem : at.read c.server.tls_cert_path ≡ text_of d.server_pem
    pub server_key : at.read c.server.tls_key_path ≡ text_of d.server_key

  -- The directory has the root that was generated for the arguments of `init-ca`, and the certificate
  -- of the server that this root signed for the request made for them, with its key; the servers show
  -- just these, sign with the key of that root, and whatever they sign is issued by its certificate.
  pub record StartsWith (d : CertDir) (s : Servers r at seed) : Type 0 where
    pub root : RootCa r
    pub csr : String
    pub key : String
    pub cert : String
    pub made : generate r args.ca_seed args.ca_pair args.ca_cn ≡ ok root
    pub asked :
        generate_server_csr r args.request_seed args.server_pair args.server_cn args.san
        ≡ ok (csr, key)
    pub signed : sign_csr r args.server_seed root csr ≡ ok cert
    pub ca_pem : text_of d.ca_pem ≡ some root.cert_pem
    pub server_pem : text_of d.server_pem ≡ some cert
    pub server_key : text_of d.server_key ≡ some key
    pub tls : s.tls ≡ (record {
      cert = cert;
      key = key;
      client_ca_root = root.cert_pem;
      client_auth_optional = true;
    })
    pub holds : s.ca.key_pair ≡ root.key_pair
    pub issues : IssuesFor x509 s.ca root.cert

  module _ (rcgen : Signs x509) (c : ManagerConfig) (loads : load at.contents at.from_str ≡ ok c)
      (connects : at.connects c.database.url ≡ true)
      (grpc : at.is_socket_addr c.server.grpc_listen_addr ≡ true)
      (rest : at.is_socket_addr c.server.rest_listen_addr ≡ true) where
    -- After a run of `init-ca` that made its files, a manager whose configuration is accepted and names
    -- these files, whose addresses parse, whose database answers and whose migrations succeed, starts.
    -- It shows the certificate in the directory, which the root generated by that run signed for the
    -- request of that run, and its key; it signs with the key of that root, and whatever it signs is
    -- issued by the certificate of that root. rcgen reads and signs as `Signs` says.
    pub start_up-init_ca :
        (fs gs : List Bool) (d e : CertDir) (w w' : World)
        → init_ca r args fs d ≡ (ok generated, gs, e)
        → Mounted c e
        → at.migrate w ≡ some w'
        → (s : Servers r at seed) × (start_up r at seed w ≡ (ok s, w')) × StartsWith e s
    unfolding start_up
    start_up-init_ca fs gs d e w w' filled m ready =
        let full = init_ca-IsComplete r args fs gs d e filled in
        let (loaded, reads, holds, issued) =
          load_from_files-generate x509 rcgen args.ca_seed seed args.ca_pair args.ca_cn full.root
            full.made in
        let ca_pem = m.ca_pem ∙ full.ca_pem in
        let ca_key : at.read c.server.ca_key_path ≡ some full.root.key_pem =
          m.ca_key ∙ ap text_of full.ca_key in
        let server_pem = m.server_pem ∙ full.server_pem in
        let server_key : at.read c.server.tls_key_path ≡ some full.key =
          m.server_key ∙ ap text_of full.server_key in
        (
          record {
            ca = loaded;
            state = new c.auth c.dashboard c.server (some bridge_capacity) (some bridge_capacity);
            tls = record {
              cert = full.cert;
              key = full.key;
              client_ca_root = full.root.cert_pem;
              client_auth_optional = true;
            };
            rest = rest_tls c.server.rest_tls_cert_path c.server.rest_tls_key_path;
          },
          rw (
            start_up, prepare, loads, ca_pem, ca_key, reads, connects, ready, grpc, rest,
            server_pem, server_key, ca_pem,
          ),
          record {
            root = full.root;
            csr = full.csr;
            key = full.key;
            cert = full.cert;
            made = full.made;
            asked = full.asked;
            signed = full.signed;
            ca_pem = full.ca_pem;
            server_pem = full.server_pem;
            server_key = ap text_of full.server_key;
            tls = refl;
            holds = holds;
            issues = issued;
          },
        )
