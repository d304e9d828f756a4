-- ===== src/Manager/Install/Once.antt =====
-- install.rs and grpc.rs together: a token that the install API gave out admits one agent.
use scrooge_dlp.Common.{
  String, List, false, Option, none, some, [], ◌∷◌, ◌++◌, ◌+◌, ◌≤◌, ◌≡◌, refl, sym, ap, subst, ◌∙◌,
  arith, ok, err, eq_iff, find, find-append_last,
}
use scrooge_dlp.Common.Text.{Text}
use scrooge_dlp.Manager.World.{Uuid, World, TokenRow, Faults}
use scrooge_dlp.Manager.World.Hoare.{
  Hoare, Hoare-ok, Hoare-bind, Hoare-lift, Hoare-query, Hoare-pure,
}
use scrooge_dlp.Manager.Api.{Claims}
use scrooge_dlp.Manager.Enroll.{
  Authority, EnrollRequest, AgentInfo, unauthenticated, is_token, is_expired, is_taken, agent_row,
  use_token, joined, response, enroll, enroll_accepted, enroll_refused,
}
use scrooge_dlp.Manager.Enroll.Bound.{admitted, Holds, admitted_within}
use scrooge_dlp.Manager.Install.{
  InstallState, InstallRequest, InstallResponse, insert_token, token_row, install_token_ttl_secs,
  create,
}

-- The row of the token that was given out.
abbrev pub Issued : InstallState → String → World → Type 0
Issued state token w =
    (d : Text) × (by : Uuid) × (token ≡ state.new_v4)
    × (find (is_token (state.sha256_hex token)) w.tokens ≡ some (token_row state d by))

pub insert_token-found :
    (t : TokenRow) (w w' : World) (u : Unit {0})
    → insert_token t w ≡ some (u, w')
    → find (is_token t.token_hash) w'.tokens ≡ some t
insert_token-found t w w' u e = by_row (find (is_token t.token_hash) w.tokens) refl e
  where
    by_row :
        (o : Option TokenRow)
        → find (is_token t.token_hash) w.tokens ≡ o
        → (elim o as (λ x. Option (Unit {0} × World)) [
          | some x ↦ none
          | none ↦ some (tt, record w { tokens = w.tokens ++ t ∷ [] })
        ])
          ≡ some (u, w')
        → find (is_token t.token_hash) w'.tokens ≡ some t
    by_row (some x) h k = absurd (cc k)
    by_row none free k =
        let rows : w'.tokens ≡ w.tokens ++ t ∷ [] = cc k in
        rw rows (
          find-append_last (is_token t.token_hash) w.tokens t free
            ((eq_iff t.token_hash t.token_hash).1 refl))

module _ (state : InstallState) where
  abbrev Anywhere : World → Type 0
  Anywhere w = Unit {0}

  create-issues :
      (claims : Claims) (req : InstallRequest)
      → Hoare Anywhere (create state claims req) (λ a. Issued state a.token) Anywhere
  unfolding create
  create-issues claims req =
      Hoare-bind Anywhere (λ a. Anywhere) _ Anywhere _ _
        (Hoare-lift Anywhere Anywhere (λ a. Anywhere) _ (λ w a p e. tt) (λ w p. tt))
        (λ admin.
          Hoare-bind Anywhere (λ a. Anywhere) _ Anywhere _ _
            (Hoare-lift Anywhere Anywhere (λ a. Anywhere) _ (λ w a p e. tt) (λ w p. tt))
            (λ os.
              Hoare-bind Anywhere (λ a. Anywhere) _ Anywhere _ _
                (Hoare-lift Anywhere Anywhere (λ a. Anywhere) _ (λ w a p e. tt) (λ w p. tt))
                (λ by.
                  Hoare-bind Anywhere (λ a. Issued state state.new_v4) _ Anywhere _ _
                    (Hoare-query Anywhere Anywhere (λ a. Issued state state.new_v4) _ _
                      (λ w w' u p e. (_, by, refl, insert_token-found _ w w' u e)) (λ w p. tt))
                    (λ u. Hoare-pure (Issued state state.new_v4) Anywhere _ _ (λ w p. p)))))

module _ (state : InstallState) (claims : Claims) (req : InstallRequest) (fs : Faults) (w : World)
    (a : InstallResponse) (answered : (create state claims req fs w).0 ≡ ok a) where
  -- The database after the token was given out.
  abbrev pub w1 : World
  w1 = (create state claims req fs w).2

  issued : Issued state a.token w1
  issued = Hoare-ok (create-issues state claims req) fs w a tt answered

  module _ (ca : Authority) (join : EnrollRequest) (info : AgentInfo) (csr cert : String)
      (given : join.info ≡ some info) (presents : join.enrollment_token ≡ a.token)
      (same_hash : ca.sha256_hex ≡ state.sha256_hex)
      (in_time : ca.now ≤ state.now + install_token_ttl_secs)
      (reads : ca.from_utf8 join.csr_pem ≡ some csr)
      (signs : ca.sign_csr_with_cn csr (ca.to_string ca.new_v4) ≡ some cert)
      (free : is_taken (agent_row ca info cert) w1.agents ≡ false) where
    hash_of_token : ca.sha256_hex join.enrollment_token ≡ state.sha256_hex a.token
    hash_of_token = ap (λ h. h join.enrollment_token) same_hash ∙ ap state.sha256_hex presents

    abbrev row : TokenRow
    row = token_row state issued.0 issued.1

    found : find (is_token (ca.sha256_hex join.enrollment_token)) w1.tokens ≡ some row
    found = rw hash_of_token issued.3

    not_expired : is_expired ca.now row ≡ false
    not_expired = ground (arith, in_time)

    w2 : World
    w2 =
        use_token (ca.sha256_hex join.enrollment_token)
          (joined ca join info w1 given row csr cert found not_expired refl reads signs free)

    accepted :
        (enroll ca join [] w1 ≡ (ok (response ca cert), [], w2))
        × (find (is_token (ca.sha256_hex join.enrollment_token)) w2.tokens
            ≡ some (record row { uses_count = 1 }))
    unfolding w2
    accepted =
        let e =
          enroll_accepted ca join info w1 given row csr cert found not_expired refl reads signs
            free in
        (e.0, e.1)

    module _ (ca' : Authority) (join' : EnrollRequest) (info' : AgentInfo)
        (given' : join'.info ≡ some info') (presents' : join'.enrollment_token ≡ a.token)
        (same_hash' : ca'.sha256_hex ≡ state.sha256_hex) where
      -- A token that the install API gave out admits an agent that joins with it within a day, where
      -- its certificate is signed for a new identity. An agent that comes with the token next, at
      -- whatever time, is refused as unauthenticated, and nothing changes; and of any requests that
      -- follow one after another, with this token or others, none with this token is admitted. No query
      -- of these requests fails.
      pub install_once :
          ((enroll ca join [] w1).0 ≡ ok (response ca cert))
          × ((message : String) × (enroll ca' join' [] (enroll ca join [] w1).2
                ≡ (err (unauthenticated message), [], (enroll ca join [] w1).2)))
          × ((rs : List (Authority × EnrollRequest))
              → admitted (state.sha256_hex a.token) rs (enroll ca join [] w1).2 ≡ 0)
      install_once =
          let left : (enroll ca join [] w1).2 ≡ w2 = ap (λ r. r.2) accepted.0 in
          let same : ca'.sha256_hex join'.enrollment_token ≡ ca.sha256_hex join.enrollment_token =
            ap (λ h. h join'.enrollment_token) same_hash'
            ∙ ap state.sha256_hex presents'
            ∙ sym hash_of_token in
          let spent =
            subst
              (λ (v : World).
                find (is_token (ca.sha256_hex join.enrollment_token)) v.tokens
                ≡ some (record row { uses_count = 1 }))
              (sym left) accepted.1 in
          let holds : Holds (state.sha256_hex a.token) 1 (enroll ca join [] w1).2 1 = record {
            row = record row { uses_count = 1 };
            found = rw hash_of_token at spent;
            bound = refl;
            uses = refl;
            within = omega arith;
          } in
          (
            ap (λ r. r.0) accepted.0,
            enroll_refused ca' join' info' (enroll ca join [] w1).2 given'
                (some (record row { uses_count = 1 })) (rw same spent) (ground arith),
            (λ rs.
                let most = admitted_within (state.sha256_hex a.token) 1 rs _ 1 holds in
                omega (arith, most)),
          )
