-- ===== src/Cli/Admin.antt =====
-- crates/scrooge-cli/src/main.rs: the commands on the database, `bootstrap-admin` and `gen-token`.
-- bcrypt, SHA-256, new identities and chrono are parameters.
pub mod Accounts
pub mod Tokens
use scrooge_dlp.Common.{
  ℕ, String, Bool, true, false, Option, none, some, List, [], ◌∷◌, ◌++◌, ◌||◌, Outcome, ok, err,
  ok_or, err_if, if◌then◌else◌, str_eq, ◌==◌, ltb, any,
}
use scrooge_dlp.Common.Int.{ℤ, pos_part}
use scrooge_dlp.Common.Text.{Text, codes, byte_len}
use scrooge_dlp.Manager.World.{
  Uuid, World, UserRow, TokenRow, Action, pure, lift, query, ◌>>=◌, ◌>>◌,
}
use scrooge_dlp.Manager.Install.{insert_token}
use scrooge_dlp.Cli.Dir.{CliError, short_password, hashing, database, panicked}

-- What the commands take from outside: `crypto::hash_password`, the `gen_random_uuid` of the table,
-- `Uuid::new_v4` as text, SHA-256, and the time so many days from now, where `none` is chrono's panic.
pub record AdminState : Type 0 where
  pub hash_password : String → Option String
  pub gen_random_uuid : Uuid
  pub new_v4 : String
  pub sha256_hex : String → String
  pub days_from_now : ℤ → Option ℕ

-- `INSERT INTO users .. ON CONFLICT (username) DO NOTHING`, with whether a row was added; the key `id`
-- may be taken.
abbrev pub insert_user : UserRow → World → Option (Bool × World)
insert_user u w =
    if any (λ v. str_eq v.username u.username) w.users
    then some (false, w)
    else if any (λ v. v.id == u.id) w.users
    then none
    else some (true, record w { users = w.users ++ u ∷ [] })

module _ (state : AdminState) where
  abbrev pub admin_row : String → String → UserRow
  admin_row username hash = record {
    id = state.gen_random_uuid;
    username = username;
    password_hash = hash;
    role = "admin";
    enabled = true;
    last_login = none;
  }

  -- `bootstrap_admin`, with whether the account was created.
  unfoldable pub bootstrap_admin : String → String → Action CliError Bool
  bootstrap_admin username password = do
    lift (err_if (ltb (byte_len (codes password)) 8) short_password)
    hash ← lift (ok_or (state.hash_password password) hashing)
    query (insert_user (admin_row username hash)) database

  -- A bound below zero counts as zero: the token is spent from the start.
  abbrev pub bound_of : Option ℤ → Option ℕ
  bound_of none = none
  bound_of (some n) = some (pos_part n)

  abbrev pub generated_row : Option Text → Option ℤ → ℕ → TokenRow
  generated_row description max_uses expires_at = record {
    token_hash = state.sha256_hex state.new_v4;
    description = description;
    created_by = none;
    max_uses = bound_of max_uses;
    uses_count = 0;
    expires_at = some expires_at;
  }

  -- `gen_token`, with the token that it prints.
  unfoldable pub gen_token : Option Text → Option ℤ → ℤ → Action CliError String
  gen_token description max_uses valid_days = do
    expires_at ← lift (ok_or (state.days_from_now valid_days) panicked)
    query (insert_token (generated_row description max_uses expires_at)) database
    pure state.new_v4
