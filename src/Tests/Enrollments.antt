-- ===== src/Tests/Enrollments.antt =====
-- The enrollment of an agent with a token of two uses, one of them taken.
use scrooge_dlp.Common.{List, ℕ, String, false, some, [], ◌∷◌, ◌≡◌, refl, arith, none, ok, err}
use scrooge_dlp.Common.Int.{pos}
use scrooge_dlp.Manager.World.{World, TokenRow, pure, lift, query, ◌>>=◌}
use scrooge_dlp.Manager.Api.{Claims}
use scrooge_dlp.Manager.Enroll.Bound.{admitted}
use scrooge_dlp.Manager.Install.{InstallState, InstallRequest, InstallResponse, create}
use scrooge_dlp.Manager.Install.Once.{w1, install_once}
use scrooge_dlp.Manager.Enroll.{
  unauthenticated, AgentInfo, EnrollRequest, Authority, is_taken, agent_row, response, enroll,
}

abbrev pub authority : Authority
authority = record {
  now = 100;
  new_v4 = 7;
  to_string = λ n. "7";
  from_utf8 = λ b. some "csr";
  sha256_hex = λ s. "4bf5";
  ca_cert_pem = "root";
  sign_csr_with_cn = λ csr cn. some "cert";
}

abbrev pub info : AgentInfo
info = record {
  hostname = "pc";
  os = "linux";
  os_version = "6";
  arch = "x86_64";
  agent_version = "0.2";
}

abbrev pub request : EnrollRequest
request = record { info = some info; enrollment_token = "secret"; csr_pem = 1 ∷ [] }

abbrev token : ℕ → TokenRow
token uses = record {
  token_hash = "4bf5";
  description = none;
  created_by = some 1;
  max_uses = some 2;
  uses_count = uses;
  expires_at = some 200;
}

abbrev pub world : ℕ → World
world uses = record {
  policies = [];
  history = [];
  assignments = [];
  agents = [];
  tokens = token uses ∷ [];
  users = [];
  refresh_tokens = [];
  pushes = [];
}

-- The install API gives out a token, with which two agents come.
abbrev install : InstallState
install = record {
  config = record {
    public_grpc_endpoint = none;
    public_rest_base_url = none;
    agent_release_tag = none;
    ca_cert_path = [];
  };
  to_ascii_lowercase = λ s. s;
  new_v4 = "secret";
  parse_uuid = λ s. some 1;
  sha256_hex = λ s. "4bf5";
  now = 50;
  package_version = [];
  template = λ os. [];
  read_to_string = λ p. none;
  trim_end = λ t. t;
}

abbrev admin : Claims
admin = record { sub = "1"; username = "root"; role = "admin"; exp = pos 2000; iat = pos 9 }

abbrev nothing : World
nothing = record (world 0) { tokens = [] }

abbrev install_request : InstallRequest
install_request = record { target_os = "linux"; description = none }

abbrev install_response : InstallResponse
install_response = record { token = "secret"; expires_at = 86450; install_command = none }

gives_out : (create install admin install_request [] nothing).0 ≡ ok install_response
unfolding create pure lift query ◌>>=◌
gives_out = refl

abbrev first : World
first = w1 install admin install_request [] nothing install_response gives_out

no_agent : is_taken (agent_row authority info "cert") first.agents ≡ false
unfolding create pure lift query ◌>>=◌
no_agent = refl

install_once_example :
    ((enroll authority request [] first).0 ≡ ok (response authority "cert"))
    × ((message : String) × (enroll authority request [] (enroll authority request [] first).2
          ≡ (err (unauthenticated message), [], (enroll authority request [] first).2)))
    × ((rs : List (Authority × EnrollRequest))
        → admitted "4bf5" rs (enroll authority request [] first).2 ≡ 0)
install_once_example =
    install_once install admin install_request [] nothing install_response gives_out authority
      request info "csr" "cert" refl refl refl (omega arith) refl refl no_agent authority request
      info refl refl refl
