-- ===== src/Cli/Admin/Accounts.antt =====
-- `bootstrap_admin` and auth.rs, `login`: the account of the administrator.
use scrooge_dlp.Common.{
  ℕ, String, Bool, true, false, Option, none, some, List, [], ◌∷◌, ◌++◌, ◌≡◌, ◌≤◌, ◌<◌, ◌^◌, refl,
  subst, arith, ok, if◌then◌else◌, str_eq, eq_iff, ◌==◌, ltb, any, find, find-append_some,
  find-append_last,
}
use scrooge_dlp.Common.Text.{codes, byte_len}
use scrooge_dlp.Manager.World.{World, Faults, UserRow, pure, lift, select, query, execute, ◌>>=◌}
use scrooge_dlp.Manager.World.Keeps.{Keeps, Keeps-at, keeps_rules}
use scrooge_dlp.Manager.Api.{require_admin}
use scrooge_dlp.Manager.Auth.{
  AuthState, find_user, insert_refresh, is_hash, claims_for, issue_tokens, hash_token, login,
  verify_password,
}
use scrooge_dlp.Cli.Admin.{AdminState, insert_user, admin_row, bootstrap_admin}

module _ (state : AdminState) (name : String) (u : UserRow) where
  insert_user-found :
      (v : UserRow) (w w' : World) (added : Bool)
      → find_user name w ≡ some u
      → insert_user v w ≡ some (added, w')
      → find_user name w' ≡ some u
  insert_user-found v w w' added h e = by_name (any (λ x. str_eq x.username v.username) w.users) e
    where
      moved : (x : World) → x ≡ w' → find_user name x ≡ some u → find_user name w' ≡ some u
      moved x same k = subst (λ y. find_user name y ≡ some u) same k

      by_id :
          (b : Bool)
          → if◌then◌else◌ {A = Option (Bool × World)} b none
              (some (true, record w { users = w.users ++ v ∷ [] }))
            ≡ some (added, w')
          → find_user name w' ≡ some u
      by_id true k = absurd (cc k)
      by_id false k =
          moved (record w { users = w.users ++ v ∷ [] }) (cc k)
            (find-append_some (λ x. str_eq x.username name) w.users (v ∷ []) u h)

      by_name :
          (b : Bool)
          → if◌then◌else◌ {A = Option (Bool × World)} b (some (false, w)) (
              if any (λ x. x.id == v.id) w.users
              then none
              else some (true, record w { users = w.users ++ v ∷ [] }))
            ≡ some (added, w')
          → find_user name w' ≡ some u
      by_name true k = moved w (cc k) h
      by_name false k = by_id (any (λ x. x.id == v.id) w.users) k

  -- A command that creates an account, or fails to, leaves every account that is there as it is,
  -- whatever its name and password.
  pub bootstrap_admin-keeps :
      (username password : String) (fs : Faults) (w : World)
      → find_user name w ≡ some u
      → find_user name (bootstrap_admin state username password fs w).2 ≡ some u
  unfolding bootstrap_admin
  bootstrap_admin-keeps username password fs w h = Keeps-at (kept) fs w h
    where
      kept : Keeps (λ v. find_user name v ≡ some u) (bootstrap_admin state username password)
      kept = search (keeps_rules, insert_user-found) depth 12

none_named :
    (name : String) (us : List UserRow)
    → any (λ x. str_eq x.username name) us ≡ false
    → find (λ x. str_eq x.username name) us ≡ none
none_named name [] h = refl
none_named name (x ∷ us) h = ground (arith, none_named name us)

module _ (state : AdminState) (auth : AuthState) (username password hash access : String)
    (expires : ℕ) (w : World) (long : 8 ≤ byte_len (codes password))
    (hashed : state.hash_password password ≡ some hash)
    (verified : auth.bcrypt_verify password hash ≡ some true)
    (new_name : any (λ x. str_eq x.username username) w.users ≡ false)
    (new_id : any (λ x. x.id == state.gen_random_uuid) w.users ≡ false) where
  abbrev pub user : UserRow
  user = admin_row state username hash

  abbrev pub created : World
  created = record w { users = w.users ++ user ∷ [] }

  bootstrap_admin-creates : bootstrap_admin state username password [] w ≡ (ok true, [], created)
  unfolding bootstrap_admin pure lift query ◌>>=◌
  bootstrap_admin-creates =
      let long' : ltb (byte_len (codes password)) 8 ≡ false = ground (arith, long) in
      rw (long', hashed, new_name, new_id)

  named : find_user username created ≡ some user
  named =
      find-append_last (λ x. str_eq x.username username) w.users user
        (none_named username w.users new_name) ((eq_iff username username).1 refl)

  -- Where no account has the name, the command creates an administrator who can then log in with the
  -- password, with tokens of which every handler for administrators lets the first pass. bcrypt
  -- verifies the hash that it made of the password, and no query fails.
  pub bootstrap_admin-login :
      (short : auth.access_ttl_secs < 2 ^ 63) (short' : auth.refresh_ttl_secs < 2 ^ 63)
      → auth.encode (claims_for auth user auth.access_ttl_secs) ≡ some access
      → auth.seconds_after auth.now auth.refresh_ttl_secs ≡ some expires
      → find (is_hash (hash_token auth auth.new_v4)) w.refresh_tokens ≡ none
      → (bootstrap_admin state username password [] w ≡ (ok true, [], created))
        × ((login auth (record { username = username; password = password }) [] created).0
            ≡ ok (record {
              access_token = access;
              refresh_token = auth.new_v4;
              token_type = "Bearer";
              expires_in = auth.access_ttl_secs;
            }))
        × (require_admin (claims_for auth user auth.access_ttl_secs) ≡ ok tt)
  unfolding login issue_tokens pure lift select query execute ◌>>=◌
  bootstrap_admin-login short short' encodes later unused =
      let s : ltb auth.access_ttl_secs (2 ^ 63) ≡ true = ground (arith, short) in
      let s' : ltb auth.refresh_ttl_secs (2 ^ 63) ≡ true = ground (arith, short') in
      (
        bootstrap_admin-creates,
        rw (
          named, verify_password, verified, s, encodes, s', later, ◌>>=◌, query, insert_refresh,
          unused,
        ),
        refl,
      )
