-- ===== src/Tests/Commands.antt =====
-- `scroogectl` from an empty directory and an empty database.
use scrooge_dlp.Common.{
  Bool, All, true, false, none, some, List, [], ◌∷◌, ◌≡◌, ◌≤◌, arith, refl, ok, err,
}
use scrooge_dlp.Common.Int.{pos}
use scrooge_dlp.Manager.World.{World, pure, lift, query, ◌>>=◌}
use scrooge_dlp.Manager.Auth.{claims_for, login}
use scrooge_dlp.Manager.Api.{require_admin}
use scrooge_dlp.Manager.Enroll.{Authority, EnrollRequest}
use scrooge_dlp.Certificates.{generate, generate_server_csr, sign_csr}
use scrooge_dlp.Cli.Dir.{File, CertDir, CliError}
use scrooge_dlp.Cli.Dir
use scrooge_dlp.Cli.Init.{InitCa, skipped, generated, init_ca}
use scrooge_dlp.Cli.Init.Files.{
  empty, file, fails_at, IsComplete, init_ca-IsComplete, init_ca-exposes,
}
use scrooge_dlp.Cli.Admin.{AdminState, admin_row, bootstrap_admin, gen_token}
use scrooge_dlp.Cli.Admin.Accounts.{bootstrap_admin-login}
use scrooge_dlp.Cli.Admin.Tokens.{gen_token-admitted}
use scrooge_dlp.Manager.Enroll.Bound.{admitted}
use scrooge_dlp.Tests.Logins.{auth}
use scrooge_dlp.Tests.Enrollments.{authority, request}
use scrooge_dlp.Tests.Certs.{crate, root}

abbrev pub args : InitCa crate
args = record {
  ca_cn = "Root";
  server_cn = "|";
  san = "localhost" ∷ "127.0.0.1" ∷ [];
  force = false;
  ca_pair = some 3;
  server_pair = some 4;
  ca_seed = 1;
  request_seed = 2;
  server_seed = 3;
}

abbrev pub filled : CertDir
filled = record {
  ca_pem = some (record { text = "Root"; is_private = false });
  ca_key = some (record { text = "|||"; is_private = true });
  server_pem = some (record { text = "||"; is_private = false });
  server_key = some (record { text = "||||"; is_private = true });
}

pub init_ca-fills_here : init_ca crate args [] empty ≡ (ok generated, [], filled)
unfolding init_ca generate generate_server_csr sign_csr Dir.pure Dir.lift Dir.look Dir.change
    Dir.◌>>=◌
init_ca-fills_here = refl

init_ca-IsComplete_example : IsComplete crate args filled
init_ca-IsComplete_example = init_ca-IsComplete crate args [] [] empty filled init_ca-fills_here

server_request : generate_server_csr crate 2 (some 4) "|" args.san ≡ ok ("||", "||||")
unfolding generate_server_csr
server_request = refl

server_signed : sign_csr crate 3 root "||" ≡ ok "||"
unfolding sign_csr
server_signed = refl

root_made : generate crate 1 (some 3) "Root" ≡ ok root
unfolding generate
root_made = refl

init_ca-exposes_example :
    All
      (λ step.
        (e : CertDir) × (z : CliError) × (init_ca crate args (fails_at step) empty ≡ (err z, [], e))
        × (e.ca_key ≡ some (file "|||"))
        × ((fs : List Bool) → (init_ca crate args fs e).2 ≡ e)
        × (init_ca crate args [] e ≡ (ok skipped, [], e)))
      (3 ∷ 4 ∷ 5 ∷ [])
init_ca-exposes_example =
    init_ca-exposes crate args root "||" "||||" "||" root_made server_request server_signed refl

abbrev state : AdminState
state = record {
  hash_password = λ p. some "$2b$12$x";
  gen_random_uuid = 7;
  new_v4 = "fresh";
  sha256_hex = λ s. "4bf5";
  days_from_now = λ d. some 200;
}

abbrev pub none_yet : World
none_yet = record {
  policies = [];
  history = [];
  assignments = [];
  agents = [];
  tokens = [];
  users = [];
  refresh_tokens = [];
  pushes = [];
}

abbrev with_admin : World
with_admin = record none_yet {
  users =
      record {
        id = 7;
        username = "admin";
        password_hash = "$2b$12$x";
        role = "admin";
        enabled = true;
        last_login = none;
      }
      ∷ [];
}

bootstrap_admin-login_example :
    (bootstrap_admin state "admin" "long enough" [] none_yet ≡ (ok true, [], with_admin))
    × ((login auth (record { username = "admin"; password = "long enough" }) [] with_admin).0
        ≡ ok (record {
          access_token = "jwt";
          refresh_token = "fresh";
          token_type = "Bearer";
          expires_in = 900;
        }))
    × (require_admin (claims_for auth (admin_row state "admin" "$2b$12$x") 900) ≡ ok tt)
bootstrap_admin-login_example =
    bootstrap_admin-login state auth "admin" "long enough" "$2b$12$x" "jwt" 86500 none_yet
      (omega arith) refl refl refl refl (omega arith) (omega arith) refl refl refl

abbrev with_token : World
with_token = (gen_token state none (some (pos 1)) (pos 30) [] none_yet).2

token_printed :
    gen_token state none (some (pos 1)) (pos 30) [] none_yet ≡ (ok "fresh", [], with_token)
unfolding gen_token pure lift query ◌>>=◌
token_printed = refl

-- Two agents ask with the token, and then the first one again.
abbrev joining : List (Authority × EnrollRequest)
joining =
    (authority, request)
    ∷ (record authority { new_v4 = 8; sha256_hex = λ s. "4bf5" }, request)
    ∷ (authority, request)
    ∷ []

gen_token-admitted_example : admitted "4bf5" joining with_token ≤ 1
gen_token-admitted_example =
    gen_token-admitted state none 1 (pos 30) [] [] none_yet with_token "fresh" token_printed joining
