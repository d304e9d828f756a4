-- ===== src/Manager/Auth.antt =====
-- crates/scrooge-manager-api/src/auth.rs: login, the rotation of refresh tokens, and the claims of a
-- bearer token. bcrypt, JWT, SHA-256, the source of new identities and the clock are parameters.
pub mod Rows
pub mod Rotation
use scrooge_dlp.Common.{
  ℕ, String, Bool, true, false, not, Option, none, some, List, [], ◌∷◌, ◌++◌, ◌+◌, ◌^◌, ◌&&◌,
  Outcome, ok, err, ok_or, err_if, if◌then◌else◌, str_eq, ◌==◌, ltb, find,
}
use scrooge_dlp.Common.Int.{ℤ, pos, to_i64}
use scrooge_dlp.Common.Text.{Text, codes, strip_prefix}
use scrooge_dlp.Policy.Size.{trim}
use scrooge_dlp.Manager.World.{
  Uuid, World, UserRow, RefreshRow, Action, lift, query, select, execute, pure, ◌>>=◌, ◌>>◌,
}
use scrooge_dlp.Manager.Api.{
  ApiError, invalid_credentials, invalid_token, unauthorized, database, internal, Claims,
}

-- An answer of the API, or a panic of the handler.
pub data Failure : Type 0 where
  api : ApiError → Failure
  panicked : Failure

-- `AuthMaterial`, whose keys are held by `encode` and `decode`, and what the handlers take from
-- outside: the text of a UUID, `Uuid::new_v4` as text, SHA-256, `bcrypt::verify`, the time in
-- seconds, and a time so many seconds after another, where `none` is chrono's panic.
pub record AuthState : Type 0 where
  pub access_ttl_secs : ℕ
  pub refresh_ttl_secs : ℕ
  pub encode : Claims → Option String
  pub decode : Text → Option Claims
  pub uuid_to_string : Uuid → String
  pub new_v4 : String
  pub sha256_hex : String → String
  pub bcrypt_verify : String → String → Option Bool
  pub now : ℕ
  pub seconds_after : ℕ → ℕ → Option ℕ

pub record LoginRequest : Type 0 where
  pub username : String
  pub password : String

pub record LoginResponse : Type 0 where
  pub access_token : String
  pub refresh_token : String
  pub token_type : String
  pub expires_in : ℕ

-- `hash_token`
unfoldable pub hash_token : AuthState → String → String
hash_token auth raw = auth.sha256_hex raw

-- `SELECT .. FROM users WHERE username = $1`
abbrev pub find_user : String → World → Option UserRow
find_user name w = find (λ u. str_eq u.username name) w.users

-- `UPDATE users SET last_login = NOW() WHERE id = $1`
abbrev pub touch_user : Uuid → ℕ → List UserRow → List UserRow
touch_user id now [] = []
touch_user id now (u ∷ us) =
    (if u.id == id then record u { last_login = some now } else u) ∷ touch_user id now us

abbrev pub is_hash : String → RefreshRow → Bool
is_hash hash t = str_eq t.token_hash hash

-- `WHERE t.token_hash = $1 AND t.revoked = FALSE AND t.expires_at > NOW()`
abbrev pub in_force : String → ℕ → RefreshRow → Bool
in_force hash now t = is_hash hash t && not t.revoked && ltb now t.expires_at

-- The row of `JOIN users u ON u.id = t.user_id`.
abbrev pub owner_of : List UserRow → Option RefreshRow → Option UserRow
owner_of us none = none
owner_of us (some t) = find (λ u. u.id == t.user_id) us

abbrev pub find_refresh : String → ℕ → World → Option UserRow
find_refresh hash now w = owner_of w.users (find (in_force hash now) w.refresh_tokens)

-- `UPDATE refresh_tokens SET revoked = TRUE WHERE token_hash = $1`
abbrev pub revoke : String → List RefreshRow → List RefreshRow
revoke hash [] = []
revoke hash (t ∷ ts) = (if is_hash hash t then record t { revoked = true } else t) ∷ revoke hash ts

abbrev pub revoke_token : String → World → World
revoke_token hash w = record w { refresh_tokens = revoke hash w.refresh_tokens }

-- `INSERT INTO refresh_tokens`, refused where the hash is taken.
abbrev pub insert_refresh : RefreshRow → World → Option (Unit {0} × World)
insert_refresh t w = elim (find (is_hash t.token_hash) w.refresh_tokens) [
  | some _ ↦ none
  | none ↦ some (tt, record w { refresh_tokens = w.refresh_tokens ++ t ∷ [] })
]

module _ (auth : AuthState) where
  -- `FromRequestParts for Claims`, from the text of the header `Authorization`.
  unfoldable pub from_request_parts : Option Text → Outcome ApiError Claims
  from_request_parts none = err unauthorized
  from_request_parts (some header) = elim (strip_prefix (codes "Bearer ") header) [
    | none ↦ err unauthorized
    | some token ↦ ok_or (auth.decode (trim token)) invalid_token
  ]

  -- `i64::try_from` of a number of seconds.
  abbrev pub to_secs : ℕ → String → Outcome Failure ℕ
  to_secs n message = if ltb n (2 ^ 63) then ok n else err (api (internal message))

  abbrev pub claims_for : UserRow → ℕ → Claims
  claims_for u ttl = record {
    sub = auth.uuid_to_string u.id;
    username = u.username;
    role = u.role;
    exp = to_i64 (auth.now + ttl);
    iat = pos auth.now;
  }

  abbrev pub refresh_row : UserRow → ℕ → RefreshRow
  refresh_row u expires = record {
    token_hash = hash_token auth auth.new_v4;
    user_id = u.id;
    expires_at = expires;
    revoked = false;
  }

  -- `issue_tokens`
  unfoldable pub issue_tokens : UserRow → Action Failure LoginResponse
  unfolding hash_token
  issue_tokens u = do
    ttl ← lift (to_secs auth.access_ttl_secs "access_ttl overflow")
    access ← lift (ok_or (auth.encode (claims_for u ttl)) (api (internal "JWT encode failed")))
    refresh_ttl ← lift (to_secs auth.refresh_ttl_secs "refresh_ttl overflow")
    expires ← lift (ok_or (auth.seconds_after auth.now refresh_ttl) panicked)
    query (insert_refresh (refresh_row u expires)) (api database)
    pure (record {
      access_token = access;
      refresh_token = auth.new_v4;
      token_type = "Bearer";
      expires_in = auth.access_ttl_secs;
    })

  -- `crypto::verify_password`, where an error counts as a wrong password.
  abbrev pub verify_password : String → String → Outcome Failure (Unit {0})
  verify_password password hash = elim (auth.bcrypt_verify password hash) [
    | none ↦ err (api invalid_credentials)
    | some right ↦ err_if (not right) (api invalid_credentials)
  ]

  -- `login`
  unfoldable pub login : LoginRequest → Action Failure LoginResponse
  login req = do
    row ← select (find_user req.username) (api database)
    user ← lift (ok_or row (api invalid_credentials))
    lift (err_if (not user.enabled) (api invalid_credentials))
    lift (verify_password req.password user.password_hash)
    execute (λ w. record w { users = touch_user user.id auth.now w.users }) (api database)
    issue_tokens user

  -- `refresh`
  unfoldable pub refresh : String → Action Failure LoginResponse
  refresh token = do
    row ← select (find_refresh (hash_token auth token) auth.now) (api database)
    user ← lift (ok_or row (api invalid_token))
    lift (err_if (not user.enabled) (api invalid_token))
    execute (revoke_token (hash_token auth token)) (api database)
    issue_tokens user
