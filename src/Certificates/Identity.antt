-- ===== src/Certificates/Identity.antt =====
-- ca.rs, grpc.rs: the certificate that `enroll` signs, and the identity that `stream` reads in it.
use scrooge_dlp.Common.{
  String, true, false, Option, none, some, List, [], ◌∷◌, ◌++◌, ◌≡◌, sym, ap, ◌∙◌, subst, arith,
  Outcome, ok, err, ok_or, any, ◌==◌, Option-cases, Bool-cases, inl, inr,
}
use scrooge_dlp.Manager.World.{Uuid, Bytes, World, Faults, AgentRow, execute, query}
use scrooge_dlp.Manager.World.Answers.{Answers, after, lift-Answers, pure-Answers, query-Answers}
use scrooge_dlp.Manager.Enroll.{
  Authority, EnrollRequest, EnrollResponse, AgentInfo, agent_row, response, enroll, is_taken,
  insert_agent, best_effort, use_token,
}
use scrooge_dlp.Manager.Stream.{accept, extract_agent_id, first}
use scrooge_dlp.Manager.Stream
use scrooge_dlp.Certificates.{
  Rcgen, RequestParams, DnType, common_name, organization_name, RootCa, sign_csr_with_cn, renamed,
}

abbrev pub to_option : {E A : Type 0} → Outcome E A → Option A
to_option (ok a) = some a
to_option (err e) = none

-- The first common name of a subject.
abbrev pub first_name : List (DnType × String) → Option String
first_name [] = none
first_name ((common_name, n) ∷ dn) = some n
first_name ((organization_name, n) ∷ dn) = first_name dn

insert_agent-holds :
    (a : AgentRow) (w w' : World)
    → insert_agent a w ≡ some (tt, w')
    → any (λ b. b.id == a.id) w'.agents ≡ true
insert_agent-holds a w w' h = elim (Bool-cases (is_taken a w.agents)) [
  | inl e ↦ absurd (cc (rw e at h))
  | inr e ↦
      (let same : w'.agents ≡ w.agents ++ a ∷ [] = cc (rw e at h) in rw same (last_row w.agents))
]
  where
    last_row : (bs : List AgentRow) → any (λ b. b.id == a.id) (bs ++ a ∷ []) ≡ true
    last_row [] = ground arith
    last_row (b ∷ bs) = ground (arith, last_row bs)

best_effort-agents :
    (hash : String) (fs : Faults) (w w' : World)
    → Answers (best_effort (use_token hash)) fs w tt w'
    → w'.agents ≡ w.agents
unfolding execute query
best_effort-agents hash [] w w' h = sym (ap (λ x. x.2.agents) h.run)
best_effort-agents hash (true ∷ fs) w w' h = sym (ap (λ x. x.2.agents) h.run)
best_effort-agents hash (false ∷ fs) w w' h = sym (ap (λ x. x.2.agents) h.run)

ok_or-some : {E A : Type 0} (o : Option A) (e : E) (a : A) → ok_or o e ≡ ok a → o ≡ some a
ok_or-some none e a h = absurd (cc h)
ok_or-some (some b) e a h = cc h

-- The authority that signs with the manager's root.
abbrev pub with_root : (r : Rcgen) → RootCa r → r.Seed → Authority → Authority
with_root r root seed base = record base {
  ca_cert_pem = root.cert_pem;
  sign_csr_with_cn = λ csr cn. to_option (sign_csr_with_cn r seed root csr cn);
}

-- What an answer of `enroll` was made of.
record Enrolled (ca : Authority) (resp : EnrollResponse) (w : World) : Type 0 where
  pub csr : String
  pub signed : ca.sign_csr_with_cn csr (ca.to_string ca.new_v4) ≡ some resp.cert_pem
  pub names : resp.agent_id ≡ ca.to_string ca.new_v4
  pub holds : any (λ b. b.id == ca.new_v4) w.agents ≡ true

of_parts :
    (ca : Authority) (info : AgentInfo) (csr cert : String)
    → ca.sign_csr_with_cn csr (ca.to_string ca.new_v4) ≡ some cert
    → (v v' : World) → any (λ b. b.id == ca.new_v4) v.agents ≡ true
    → v'.agents ≡ v.agents
    → (resp : EnrollResponse) (w' : World) → response ca cert ≡ resp
    → v' ≡ w'
    → Enrolled ca resp w'
of_parts ca info csr cert signed v v' held kept resp w' answer last = record {
  csr = csr;
  signed = signed ∙ ap (λ r. some r.cert_pem) answer;
  names = sym (ap (λ r. r.agent_id) answer);
  holds =
      subst (λ x. any (λ b. b.id == ca.new_v4) x.agents ≡ true) last
        (subst (λ bs. any (λ b. b.id == ca.new_v4) bs ≡ true) (sym kept) held);
}

enroll-Enrolled :
    (ca : Authority) (req : EnrollRequest) (fs : Faults) (w w' : World) (resp : EnrollResponse)
    → Answers (enroll ca req) fs w resp w'
    → Enrolled ca resp w'
unfolding enroll
enroll-Enrolled ca req fs w w' resp h = after _ _ fs w resp w' h (λ info f1 v1 h1 k1.
    after _ _ f1 v1 resp w' k1 (λ row f2 v2 h2 k2. after _ _ f2 v2 resp w' k2 (λ token f3 v3 h3 k3.
      after _ _ f3 v3 resp w' k3 (λ a f4 v4 h4 k4. after _ _ f4 v4 resp w' k4 (λ b f5 v5 h5 k5.
        after _ _ f5 v5 resp w' k5 (λ csr f6 v6 h6 k6.
          after _ _ f6 v6 resp w' k6 (λ cert f7 v7 h7 k7.
            after _ _ f7 v7 resp w' k7 (λ c f8 v8 h8 k8.
              after _ _ f8 v8 resp w' k8 (λ d f9 v9 h9 k9.
                of_parts ca info csr cert (ok_or-some _ _ cert (lift-Answers _ h7).0) v8 v9
                  (insert_agent-holds (agent_row ca info cert) v7 v8 (query-Answers _ _ h8))
                  (best_effort-agents (ca.sha256_hex req.enrollment_token) f8 v8 v9 h9) resp w'
                  (pure-Answers _ k9).0 (pure-Answers _ k9).1)))))))))

signed-Named :
    (r : Rcgen) (seed : r.Seed) (root : RootCa r) (csr cn pem : String)
    → to_option (sign_csr_with_cn r seed root csr cn) ≡ some pem
    → (q : RequestParams r.PublicKey) × (c : r.Certificate) × (r.signed_by
          (renamed r cn q)
          root.cert
          root.key_pair
          seed
        ≡ some c)
      × (pem ≡ r.pem c)
unfolding sign_csr_with_cn
signed-Named r seed root csr cn pem h = elim (Option-cases (r.request_from_pem csr)) [
  | inl e ↦ absurd (cc (rw e at h))
  | inr (q, e) ↦ elim (Option-cases (r.signed_by (renamed r cn q) root.cert root.key_pair seed)) [
    | inl s ↦ absurd (cc (rw (e, s) at h))
    | inr (c, s) ↦ (q, c, s, cc (rw (e, s) at h))
  ]
]

-- What `enroll` answers, under whichever faults, is a certificate by which `stream` takes its bearer
-- for the very agent that was entered, whatever name the agent asked for. A certificate of rcgen bears
-- the name of the request that was signed, once it is read in the handshake, and the text of an
-- identity is parsed as that identity.
pub enroll-accept :
    (r : Rcgen) (root : RootCa r) (seed : r.Seed) (base : Authority) {Cert : Type 0}
    (x509 : Stream.Certificates Cert) (der_of : String → Bytes)
    → ((q : RequestParams r.PublicKey) (c : r.Certificate)
        → r.signed_by q root.cert root.key_pair seed ≡ some c
        → (x : Cert) × (x509.from_der (der_of (r.pem c)) ≡ some x)
          × (x509.common_name x ≡ first_name q.params.distinguished_name))
    → ((id : Uuid) → x509.parse_uuid (base.to_string id) ≡ some id)
    → (req : EnrollRequest) (fs gs : Faults) (w w' : World) (resp : EnrollResponse)
    → enroll (with_root r root seed base) req fs w ≡ (ok resp, gs, w')
    → (accept x509 (some (der_of resp.cert_pem ∷ [])) false w' ≡ ok base.new_v4)
      × (resp.agent_id ≡ base.to_string base.new_v4)
unfolding accept extract_agent_id
enroll-accept r root seed base x509 der_of bears reads req fs gs w w' resp answered =
    let entered =
      enroll-Enrolled (with_root r root seed base) req fs w w' resp
        (record { left = gs; run = answered }) in
    let (q, c, signed, pem) =
      signed-Named r seed root entered.csr (base.to_string base.new_v4) resp.cert_pem
        entered.signed in
    let (x, decoded, named) = bears _ c signed in
    (rw (pem, decoded, named, reads base.new_v4, entered.holds), entered.names)
