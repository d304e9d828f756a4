-- ===== src/Manager/Install.antt =====
-- crates/scrooge-manager-api/src/handlers/install.rs: the tokens for new agents and the scripts that
-- install them. The templates, SHA-256, the clock, new identities, lower case and the file of the
-- certificate are parameters.
pub mod Targets
pub mod Once
use scrooge_dlp.Common.{
  ℕ, String, Bool, true, false, not, Option, none, some, List, [], ◌∷◌, ◌++◌, ◌+◌, ◌*◌, ◌&&◌, ◌||◌,
  Outcome, ok, err, ok_or, err_if, if◌then◌else◌, str_eq, ◌==◌, is_empty, leb, find,
}
use scrooge_dlp.Common.Text.{Text, codes, replace}
use scrooge_dlp.Manager.World.{
  Uuid, World, TokenRow, Action, pure, lift, select, query, ◌>>=◌, ◌>>◌,
}
use scrooge_dlp.Manager.Api.{
  ApiError, bad_request, unknown_target_os, internal, service_unavailable, invalid_token, database,
  Claims, require_admin,
}
use scrooge_dlp.Manager.Install.Targets.{
  TargetOs, linux, macos, windows, parse, label, content_type, script_path, one_liner,
}
use scrooge_dlp.Manager.Enroll.{is_token}

-- `InstallConfig`
pub record InstallConfig : Type 0 where
  pub public_grpc_endpoint : Option Text
  pub public_rest_base_url : Option Text
  pub agent_release_tag : Option Text
  pub ca_cert_path : Text

-- `INSTALL_TOKEN_TTL_HOURS`, in seconds.
abbrev pub install_token_ttl_secs : ℕ
install_token_ttl_secs = 24 * 3600

abbrev pub releases_base_url : Text
releases_base_url = codes "https://github.com/SQTX/Scrooge-DLP/releases/download"

-- What the handlers take from outside: `to_ascii_lowercase`, `Uuid::new_v4` as text, the parser of
-- UUIDs, SHA-256, the time in seconds, `CARGO_PKG_VERSION` with its revision, the templates, the file
-- of the certificate, and `trim_end`.
pub record InstallState : Type 0 where
  pub config : InstallConfig
  pub to_ascii_lowercase : String → String
  pub new_v4 : String
  pub parse_uuid : String → Option Uuid
  pub sha256_hex : String → String
  pub now : ℕ
  pub package_version : Text
  pub template : TargetOs → Text
  pub read_to_string : Text → Option Text
  pub trim_end : Text → Text

pub record InstallRequest : Type 0 where
  pub target_os : String
  pub description : Option Text

pub record InstallResponse : Type 0 where
  pub token : String
  pub expires_at : ℕ
  pub install_command : Option Text

-- `INSERT INTO enrollment_tokens`, refused where the hash is taken.
abbrev pub insert_token : TokenRow → World → Option (Unit {0} × World)
insert_token t w = elim (find (is_token t.token_hash) w.tokens) [
  | some _ ↦ none
  | none ↦ some (tt, record w { tokens = w.tokens ++ t ∷ [] })
]

abbrev pub or_else : Option Text → Text → Text
or_else none d = d
or_else (some t) d = t

abbrev pub is_none {ℓ} : {A : Type ℓ} → Option A → Bool
is_none none = true
is_none (some a) = false

-- `ScriptContext`
pub record ScriptContext : Type 0 where
  pub manager_endpoint : Text
  pub install_base_url : Text
  pub release_tag : Text
  pub ca_cert_path : Text

-- `from_install_config`
abbrev pub from_install_config : InstallConfig → Outcome ApiError ScriptContext
from_install_config cfg = elim cfg.public_grpc_endpoint [
  | none ↦ err (service_unavailable "install API requires settings in manager.yaml")
  | some endpoint ↦ elim cfg.public_rest_base_url [
    | none ↦ err (service_unavailable "install API requires settings in manager.yaml")
    | some base ↦ elim cfg.agent_release_tag [
      | none ↦ err (service_unavailable "install API requires settings in manager.yaml")
      | some tag ↦ ok (record {
        manager_endpoint = endpoint;
        install_base_url = base;
        release_tag = tag;
        ca_cert_path = cfg.ca_cert_path;
      })
    ]
  ]
]

-- `expires_at <= Utc::now()`
abbrev pub is_over : ℕ → Option ℕ → Bool
is_over now none = false
is_over now (some e) = leb e now

module _ (state : InstallState) where
  abbrev pub token_row : Text → Uuid → TokenRow
  token_row description by = record {
    token_hash = state.sha256_hex state.new_v4;
    description = some description;
    created_by = some by;
    max_uses = some 1;
    uses_count = 0;
    expires_at = some (state.now + install_token_ttl_secs);
  }

  abbrev pub install_command : TargetOs → Option Text
  install_command os = elim state.config.public_grpc_endpoint [
    | none ↦ none
    | some manager ↦ some (
        one_liner os manager (codes state.new_v4) (or_else state.config.agent_release_tag [])
          state.config.public_rest_base_url)
  ]

  abbrev pub default_description : TargetOs → Claims → Text
  default_description os claims =
      codes "install API (" ++ (label os ++ (codes ") by " ++ codes claims.username))

  -- `create`
  unfoldable pub create : Claims → InstallRequest → Action ApiError InstallResponse
  create claims req = do
    lift (require_admin claims)
    os ← lift (
        ok_or (parse (state.to_ascii_lowercase req.target_os))
          (bad_request (unknown_target_os req.target_os)))
    by ← lift (ok_or (state.parse_uuid claims.sub) (internal "sub claim is not a UUID"))
    query (insert_token (token_row (or_else req.description (default_description os claims)) by))
        database
    pure (record {
      token = state.new_v4;
      expires_at = state.now + install_token_ttl_secs;
      install_command = install_command os;
    })

  -- `validate_token`
  unfoldable pub validate_token : String → Action ApiError (Unit {0})
  validate_token token = do
    row ← select (λ w. find (is_token (state.sha256_hex token)) w.tokens) database
    found ← lift (ok_or row invalid_token)
    lift (err_if (is_over state.now found.expires_at) invalid_token)

  -- `render_install_script`
  unfoldable pub render_install_script : Text → ScriptContext → Text → Text → Text → Text
  render_install_script template ctx token ca_pem install_ref =
      replace (codes "{{CA_PEM}}") ca_pem (
        replace (codes "{{INSTALL_REF}}") install_ref (
          replace (codes "{{RELEASES_BASE}}") releases_base_url (
            replace (codes "{{PACKAGE_VERSION}}") state.package_version (
              replace (codes "{{RELEASE_TAG}}") ctx.release_tag (
                replace (codes "{{ENROLLMENT_TOKEN}}") token (
                  replace (codes "{{INSTALL_BASE_URL}}") ctx.install_base_url
                    (replace (codes "{{MANAGER_ENDPOINT}}") ctx.manager_endpoint template)))))))

  -- `render_for`: the content type and the body.
  unfoldable pub render_for : TargetOs → String → Option Text → Action ApiError (String × Text)
  render_for os token install_ref = do
    ctx ← lift (from_install_config state.config)
    validate_token token
    ca_pem ← lift (ok_or (state.read_to_string ctx.ca_cert_path) (internal "cannot read CA cert"))
    pure (
      content_type os,
      render_install_script (state.template os) ctx (codes token) (state.trim_end ca_pem)
          (or_else install_ref []),
    )

  -- `script`, `script_macos` and `script_windows`
  abbrev pub script : String → Option Text → Action ApiError (String × Text)
  script = render_for linux

  abbrev pub script_macos : String → Option Text → Action ApiError (String × Text)
  script_macos = render_for macos

  abbrev pub script_windows : String → Option Text → Action ApiError (String × Text)
  script_windows = render_for windows

  -- `ca_pem`
  unfoldable pub ca_pem : Action ApiError (String × Text)
  ca_pem = do
    pem ←
        lift
          (ok_or (state.read_to_string state.config.ca_cert_path) (internal "cannot read CA cert"))
    pure ("application/x-pem-file", pem)
