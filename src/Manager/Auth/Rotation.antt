-- ===== src/Manager/Auth/Rotation.antt =====
-- auth.rs, `refresh`: a refresh token is good for one use.
use scrooge_dlp.Common.{
  ℕ, String, false, Option, none, some, List, [], ◌∷◌, ◌++◌, ◌≡◌, refl, sym, ap, subst, ◌∙◌, eq_iff,
  find, ok, err, ok_or, Bool-cases, ◌⊎◌, inl, inr,
}
use scrooge_dlp.Manager.World.{World, UserRow, RefreshRow, Faults}
use scrooge_dlp.Manager.World.Hoare.{
  Hoare, Hoare-answer, Hoare-ok, Hoare-lift, Hoare-select, Hoare-execute, Hoare-bind,
  select-missing,
}
use scrooge_dlp.Manager.World.Keeps.{Keeps, Keeps-at, keeps_rules}
use scrooge_dlp.Manager.Api.{invalid_token, database}
use scrooge_dlp.Manager.Auth.{
  api, AuthState, LoginRequest, LoginResponse, hash_token, find_refresh, is_hash, in_force,
  owner_of, revoke_token, insert_refresh, issue_tokens, login, refresh,
}
use scrooge_dlp.Manager.Auth.Rows.{
  IsRevoked, held_of_in_force, revoke-IsRevoked, revoke_any-IsRevoked, append-IsRevoked,
}

abbrev pub Spent : String → World → Type 0
Spent hash w = IsRevoked hash w.refresh_tokens

module _ (hash : String) (t : RefreshRow) (w w' : World) (a : Unit {0}) where
  -- The row of a spent token keeps its hash from being taken again.
  other_hash :
      Spent hash w → find (is_hash t.token_hash) w.refresh_tokens ≡ none → is_hash hash t ≡ false
  other_hash v free = elim (Bool-cases (is_hash hash t)) [
    | inl same ↦
        let held : find (is_hash t.token_hash) w.refresh_tokens ≡ some v.row =
          subst (λ h. find (is_hash h) w.refresh_tokens ≡ some v.row)
            (sym ((eq_iff t.token_hash hash).0 same)) v.held in
        absurd (cc (held, free))
    | inr other ↦ other
  ]

  insert_refresh-Spent : Spent hash w → insert_refresh t w ≡ some (a, w') → Spent hash w'
  insert_refresh-Spent v e = by_row (find (is_hash t.token_hash) w.refresh_tokens) refl e
    where
      by_row :
          (o : Option RefreshRow)
          → find (is_hash t.token_hash) w.refresh_tokens ≡ o
          → (elim o as (λ x. Option (Unit {0} × World)) [
            | some r ↦ none
            | none ↦ some (tt, record w { refresh_tokens = w.refresh_tokens ++ t ∷ [] })
          ])
            ≡ some (a, w')
          → Spent hash w'
      by_row (some r) h k = absurd (cc k)
      by_row none free k =
          let same : w'.refresh_tokens ≡ w.refresh_tokens ++ t ∷ [] = cc k in
          subst (IsRevoked hash) (sym same)
            (append-IsRevoked hash t w.refresh_tokens (other_hash v free) v)

module _ (auth : AuthState) (hash : String) where
  issue_tokens-Spent : (u : UserRow) → Keeps (Spent hash) (issue_tokens auth u)
  unfolding issue_tokens
  issue_tokens-Spent u = search (keeps_rules, insert_refresh-Spent) depth 16

  pub login-Spent : (req : LoginRequest) → Keeps (Spent hash) (login auth req)
  unfolding login
  login-Spent req = search (keeps_rules, issue_tokens-Spent) depth 16

  revoke_token-Spent :
      (other : String) (w : World) → Spent hash w → Spent hash (revoke_token other w)
  revoke_token-Spent other w v = revoke_any-IsRevoked hash other w.refresh_tokens v

  pub refresh-Spent : (token : String) → Keeps (Spent hash) (refresh auth token)
  unfolding refresh
  refresh-Spent token = search (keeps_rules, issue_tokens-Spent, revoke_token-Spent) depth 16

module _ (auth : AuthState) (token : String) where
  abbrev Anywhere : World → Type 0
  Anywhere w = Unit {0}

  -- The row and the account that the first query found.
  abbrev Found : Option UserRow → World → Type 0
  Found o w = find_refresh (hash_token auth token) auth.now w ≡ o

  abbrev FoundUser : UserRow → World → Type 0
  FoundUser u w = Found (some u) w

  FoundUser-Spent :
      (u : UserRow) (w : World)
      → FoundUser u w
      → Spent (hash_token auth token) (revoke_token (hash_token auth token) w)
  FoundUser-Spent u w h =
      by_row (find (in_force (hash_token auth token) auth.now) w.refresh_tokens) refl h
    where
      by_row :
          (o : Option RefreshRow)
          → find (in_force (hash_token auth token) auth.now) w.refresh_tokens ≡ o
          → owner_of w.users o ≡ some u
          → Spent (hash_token auth token) (revoke_token (hash_token auth token) w)
      by_row none g k = absurd (cc k)
      by_row (some t) g k =
          let (r, held) = held_of_in_force (hash_token auth token) auth.now w.refresh_tokens t g in
          revoke-IsRevoked (hash_token auth token) w.refresh_tokens r held

  -- A refresh that answers has spent its token.
  refresh-spends : Hoare Anywhere (refresh auth token) (λ a. Spent (hash_token auth token)) Anywhere
  unfolding refresh
  refresh-spends =
      Hoare-bind Anywhere Found (λ a. Spent (hash_token auth token)) Anywhere _ _
        (Hoare-select Anywhere Anywhere Found _ _ (λ w p. refl) (λ w p. tt))
        (λ row.
          Hoare-bind (Found row) FoundUser (λ a. Spent (hash_token auth token)) Anywhere _ _
            (Hoare-lift (Found row) Anywhere FoundUser _ (λ w u p e. (by_answer row w u p e))
              (λ w p. tt))
            (λ u.
              Hoare-bind (FoundUser u) (λ a. FoundUser u) (λ a. Spent (hash_token auth token))
                Anywhere _ _
                (Hoare-lift (FoundUser u) Anywhere (λ a. FoundUser u) _ (λ w a p e. p) (λ w p. tt))
                (λ a.
                  Hoare-bind (FoundUser u) (λ b. Spent (hash_token auth token))
                    (λ b. Spent (hash_token auth token)) Anywhere _ _
                    (Hoare-execute (FoundUser u) Anywhere (Spent (hash_token auth token)) _ _
                      (FoundUser-Spent u) (λ w p. tt))
                    (λ b.
                      Hoare-answer (issue_tokens-Spent auth (hash_token auth token) u).triple))))
    where
      by_answer :
          (row : Option UserRow) (w : World) (u : UserRow)
          → Found row w
          → ok_or row (api invalid_token) ≡ ok u
          → FoundUser u w
      by_answer none w u p e = absurd (cc e)
      by_answer (some v) w u p e = p ∙ ap some (cc e)

-- A call of the handlers that change refresh tokens, with its time, the next new identity and the
-- queries that fail.
pub data AuthCall : Type 0 where
  log_in : ℕ → String → Faults → LoginRequest → AuthCall
  renew : ℕ → String → Faults → String → AuthCall

abbrev pub at : AuthState → ℕ → String → AuthState
at auth now id = record auth { now = now; new_v4 = id }

abbrev pub serve : AuthState → AuthCall → World → World
serve auth (log_in now id fs req) w = (login (at auth now id) req fs w).2
serve auth (renew now id fs token) w = (refresh (at auth now id) token fs w).2

abbrev pub serve_all : AuthState → List AuthCall → World → World
serve_all auth [] w = w
serve_all auth (c ∷ cs) w = serve_all auth cs (serve auth c w)

module _ (auth : AuthState) (hash : String) where
  serve-Spent : (c : AuthCall) (w : World) → Spent hash w → Spent hash (serve auth c w)
  serve-Spent (log_in now id fs req) w v = Keeps-at (login-Spent (at auth now id) hash req) fs w v
  serve-Spent (renew now id fs token) w v =
      Keeps-at (refresh-Spent (at auth now id) hash token) fs w v

  serve_all-Spent :
      (cs : List AuthCall) (w : World) → Spent hash w → Spent hash (serve_all auth cs w)
  serve_all-Spent [] w v = v
  serve_all-Spent (c ∷ cs) w v = serve_all-Spent cs _ (serve-Spent c w v)

refresh-refused :
    (auth : AuthState) (token : String) (fs : Faults) (w : World)
    → Spent (hash_token auth token) w
    → ((refresh auth token fs w).0 ≡ err (api invalid_token))
      ⊎ ((refresh auth token fs w).0 ≡ err (api database))
unfolding refresh
refresh-refused auth token fs w v =
    let unusable : find (in_force (hash_token auth token) auth.now) w.refresh_tokens ≡ none =
      v.unusable auth.now in
    select-missing (find_refresh (hash_token auth token) auth.now) (api database)
      (api invalid_token) _ fs w (rw unusable)

-- A refresh that answers spends its token: after any further logins and refreshes, at any times and
-- whichever queries fail, a refresh with that token ends in the error of an invalid token or of the
-- database.
pub refresh_once :
    (auth : AuthState) (token : String) (fs : Faults) (w : World) (answer : LoginResponse)
    → (refresh auth token fs w).0 ≡ ok answer
    → (cs : List AuthCall) (now : ℕ) (id : String) (fs' : Faults)
    → let again =
        (refresh (at auth now id) token fs' (serve_all auth cs (refresh auth token fs w).2)).0 in
      (again ≡ err (api invalid_token)) ⊎ (again ≡ err (api database))
unfolding hash_token
refresh_once auth token fs w answer e cs now id fs' =
    let spent = Hoare-ok (refresh-spends auth token) fs w answer tt e in
    refresh-refused (at auth now id) token fs' _
      (serve_all-Spent auth (hash_token auth token) cs _ spent)
