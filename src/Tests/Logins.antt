-- ===== src/Tests/Logins.antt =====
-- The rotation of a refresh token.
use scrooge_dlp.Common.{true, false, none, some, [], ◌∷◌, ◌≡◌, ◌⊎◌, refl, ok, err}
use scrooge_dlp.Manager.World.{World, UserRow, RefreshRow}
use scrooge_dlp.Manager.Api.{invalid_token, database}
use scrooge_dlp.Manager.Auth.{api, AuthState, LoginResponse, hash_token, issue_tokens, refresh}
use scrooge_dlp.Manager.Auth.Rotation.{at, renew, serve_all, refresh_once}
use scrooge_dlp.Manager.World.{pure, lift, query, select, execute, ◌>>=◌}

abbrev pub auth : AuthState
auth = record {
  access_ttl_secs = 900;
  refresh_ttl_secs = 86400;
  encode = λ c. some "jwt";
  decode = λ t. none;
  uuid_to_string = λ n. "7";
  new_v4 = "fresh";
  sha256_hex = λ s. s;
  bcrypt_verify = λ password hash. some true;
  now = 100;
  seconds_after = λ t n. some 86500;
}

abbrev user : UserRow
user = record {
  id = 7;
  username = "admin";
  password_hash = "$2b$12$x";
  role = "admin";
  enabled = true;
  last_login = none;
}

abbrev token : RefreshRow
token = record { token_hash = "secret"; user_id = 7; expires_at = 200; revoked = false }

abbrev world : World
world = record {
  policies = [];
  history = [];
  assignments = [];
  agents = [];
  tokens = [];
  users = user ∷ [];
  refresh_tokens = token ∷ [];
  pushes = [];
}

abbrev response : LoginResponse
response = record {
  access_token = "jwt";
  refresh_token = "fresh";
  token_type = "Bearer";
  expires_in = 900;
}

refresh_answers : (refresh auth "secret" [] world).0 ≡ ok response
unfolding refresh issue_tokens hash_token pure lift query select execute ◌>>=◌
refresh_answers = refl

refresh_once_example :
    let again =
      (refresh (at auth 120 "third") "secret" [] (
        serve_all auth
          (renew 110 "second" [] "fresh" ∷ [])
          (refresh auth "secret" [] world).2)).0 in
    (again ≡ err (api invalid_token)) ⊎ (again ≡ err (api database))
refresh_once_example =
    refresh_once auth "secret" [] world response refresh_answers
      (renew 110 "second" [] "fresh" ∷ []) 120 "third" []
