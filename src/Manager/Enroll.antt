-- ===== src/Manager/Enroll.antt =====
-- crates/scrooge-manager-bin/src/grpc.rs, `enroll`: an agent joins with a token. The certificate
-- authority, the source of new identities, SHA-256 and the clock are parameters.
pub mod Effect
pub mod Bound
use scrooge_dlp.Common.{
  ℕ, String, Bool, true, false, Option, none, some, List, [], ◌∷◌, ◌++◌, ◌+◌, ◌≡◌, ◌≤◌, arith, ok,
  err, ok_or, err_if, if◌then◌else◌, str_eq, ◌==◌, ◌||◌, ltb, leb, find, ap, Bool-cases, inl, inr,
}
use scrooge_dlp.Manager.World.{
  Uuid, Bytes, World, TokenRow, AgentRow, Action, lift, select, query, attempt, execute, pure,
  ◌>>=◌, ◌>>◌, modify,
}

-- `tonic::Status` with its message.
pub data Status : Type 0 where
  invalid_argument unauthenticated internal : String → Status

pub record AgentInfo : Type 0 where
  pub hostname : String
  pub os : String
  pub os_version : String
  pub arch : String
  pub agent_version : String

pub record EnrollRequest : Type 0 where
  pub info : Option AgentInfo
  pub enrollment_token : String
  pub csr_pem : Bytes

pub record EnrollResponse : Type 0 where
  pub agent_id : String
  pub cert_pem : String
  pub ca_chain_pem : String

-- What `enroll` takes from outside: `Utc::now`, `Uuid::new_v4` and its text, the reading of UTF-8,
-- SHA-256, the certificate of the root and its signature of a CSR under a common name.
pub record Authority : Type 0 where
  pub now : ℕ
  pub new_v4 : Uuid
  pub to_string : Uuid → String
  pub from_utf8 : Bytes → Option String
  pub sha256_hex : String → String
  pub ca_cert_pem : String
  pub sign_csr_with_cn : String → String → Option String

abbrev pub is_token : String → TokenRow → Bool
is_token hash t = str_eq t.token_hash hash

abbrev pub is_expired : ℕ → TokenRow → Bool
is_expired now t = elim t.expires_at [ none ↦ false | some e ↦ ltb e now ]

abbrev pub is_spent : TokenRow → Bool
is_spent t = elim t.max_uses [ none ↦ false | some m ↦ leb m t.uses_count ]

-- The token is not known, is expired or has no use left.
abbrev pub is_unusable : ℕ → Option TokenRow → Bool
is_unusable now none = true
is_unusable now (some t) = is_expired now t || is_spent t

-- `UPDATE enrollment_tokens SET uses_count = uses_count + 1 WHERE token_hash = $1`
abbrev pub count_use : String → List TokenRow → List TokenRow
count_use hash [] = []
count_use hash (t ∷ ts) =
    (if is_token hash t then record t { uses_count = t.uses_count + 1 } else t) ∷ count_use hash ts

abbrev pub use_token : String → World → World
use_token hash w = record w { tokens = count_use hash w.tokens }

-- The key `id` and the unique `cert_fingerprint`.
abbrev pub is_taken : AgentRow → List AgentRow → Bool
is_taken a [] = false
is_taken a (b ∷ bs) = a.id == b.id || str_eq a.cert_fingerprint b.cert_fingerprint || is_taken a bs

-- `INSERT INTO agents`
abbrev pub insert_agent : AgentRow → World → Option (Unit {0} × World)
insert_agent a w =
    if is_taken a w.agents then none else some (tt, record w { agents = w.agents ++ a ∷ [] })

-- A query whose error is only logged.
abbrev pub best_effort : (World → World) → Action Status (Unit {0})
best_effort f fs w = let (r, fs', w') = execute f tt fs w in (ok tt, fs', w')

pub find-count_use :
    (hash : String) (ts : List TokenRow) (t : TokenRow)
    → find (is_token hash) ts ≡ some t
    → find (is_token hash) (count_use hash ts) ≡ some (record t { uses_count = t.uses_count + 1 })
find-count_use hash [] t h = absurd (cc h)
find-count_use hash (x ∷ ts) t h = elim (Bool-cases (is_token hash x)) [
  | inl e ↦
      rw (e, e)
        (ap
          (λ o. elim o [ none ↦ none | some r ↦ some (record r { uses_count = r.uses_count + 1 }) ])
          (rw e at h))
  | inr e ↦ rw (e, e) (find-count_use hash ts t (rw e at h))
]

module _ (ca : Authority) where
  abbrev pub agent_row : AgentInfo → String → AgentRow
  agent_row info cert = record {
    id = ca.new_v4;
    hostname = info.hostname;
    os = info.os;
    os_version = info.os_version;
    arch = info.arch;
    agent_version = info.agent_version;
    enrolled_at = ca.now;
    last_seen = ca.now;
    status = "active";
    cert_fingerprint = ca.sha256_hex cert;
  }

  abbrev pub response : String → EnrollResponse
  response cert = record {
    agent_id = ca.to_string ca.new_v4;
    cert_pem = cert;
    ca_chain_pem = ca.ca_cert_pem;
  }

  -- `enroll`
  unfoldable pub enroll : EnrollRequest → Action Status EnrollResponse
  enroll req = do
    info ← lift (ok_or req.info (invalid_argument "missing AgentInfo"))
    let hash = ca.sha256_hex req.enrollment_token
    row ← select (λ w. find (is_token hash) w.tokens) (internal "database error")
    token ← lift (ok_or row (unauthenticated "invalid enrollment token"))
    lift (err_if (is_expired ca.now token) (unauthenticated "enrollment token expired"))
    lift (err_if (is_spent token) (unauthenticated "enrollment token usage exceeded"))
    csr_pem ←
        lift (ok_or (ca.from_utf8 req.csr_pem) (invalid_argument "CSR must be valid UTF-8 PEM"))
    cert ← lift (
        ok_or (ca.sign_csr_with_cn csr_pem (ca.to_string ca.new_v4))
          (internal "CSR signing failed"))
    query (insert_agent (agent_row info cert)) (internal "database error")
    best_effort (use_token hash)
    pure (response cert)

  module _ (req : EnrollRequest) (info : AgentInfo) (w : World) (given : req.info ≡ some info) where
    abbrev pub hash : String
    hash = ca.sha256_hex req.enrollment_token

    -- A request whose token is not known, is expired or has no use left is refused as
    -- unauthenticated, where no query fails, and nothing changes.
    pub enroll_refused :
        (o : Option TokenRow)
        → find (is_token hash) w.tokens ≡ o
        → is_unusable ca.now o ≡ true
        → (message : String) × (enroll req [] w ≡ (err (unauthenticated message), [], w))
    unfolding enroll pure lift select query execute modify ◌>>=◌
    enroll_refused none e h = ("invalid enrollment token", rw (given, e))
    enroll_refused (some t) e h = elim (Bool-cases (is_expired ca.now t)) [
      | inl x ↦ ("enrollment token expired", rw (given, e, x))
      | inr x ↦ ("enrollment token usage exceeded", rw (given, e, x, rw x at h))
    ]

    module _ (t : TokenRow) (csr cert : String) (found : find (is_token hash) w.tokens ≡ some t)
        (fresh : is_expired ca.now t ≡ false) (left : is_spent t ≡ false)
        (reads : ca.from_utf8 req.csr_pem ≡ some csr)
        (signs : ca.sign_csr_with_cn csr (ca.to_string ca.new_v4) ≡ some cert)
        (free : is_taken (agent_row info cert) w.agents ≡ false) where
      abbrev pub joined : World
      joined = record w { agents = w.agents ++ agent_row info cert ∷ [] }

      inserted : insert_agent (agent_row info cert) w ≡ some (tt, joined)
      inserted = rw (insert_agent, free)

      bounded : (m : ℕ) → t.max_uses ≡ some m → t.uses_count + 1 ≤ m
      bounded m e = let below : leb m t.uses_count ≡ false = rw e at left in ground arith

      -- A request with a token in force, where no query fails and the certificate is signed, adds the
      -- agent with the fingerprint of its certificate, and counts one use of the token, which stays
      -- within its bound.
      pub enroll_accepted :
          (enroll req [] w ≡ (ok (response cert), [], use_token hash joined))
          × (find (is_token hash) (use_token hash joined).tokens
              ≡ some (record t { uses_count = t.uses_count + 1 }))
          × ((m : ℕ) → t.max_uses ≡ some m → t.uses_count + 1 ≤ m)
      unfolding enroll pure lift select query execute modify ◌>>=◌
      enroll_accepted = (
        rw (given, found, fresh, left, reads, signs, inserted, attempt, inserted),
        find-count_use hash w.tokens t found,
        bounded,
      )

      -- Where only the count fails, the agent is added all the same and the token keeps its uses.
      pub enroll_uncounted :
          enroll req (false ∷ false ∷ true ∷ []) w ≡ (ok (response cert), [], joined)
      unfolding enroll pure lift select query execute modify ◌>>=◌
      enroll_uncounted = rw (given, found, fresh, left, reads, signs, inserted, attempt, inserted)
