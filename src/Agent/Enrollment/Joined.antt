-- ===== src/Agent/Enrollment/Joined.antt =====
-- The agent and the manager together: the identity that an agent enrolls for.
use scrooge_dlp.Common.{
  Bool, true, false, Option, none, some, [], ◌∷◌, ◌≡◌, refl, sym, ap, ◌∙◌, Outcome, ok, err,
  Outcome-cases, Option-cases, inl, inr,
}
use scrooge_dlp.Common.Text.{Text, codes}
use scrooge_dlp.Policy.Size.{trim}
use scrooge_dlp.Certificates.{Rcgen, RootCa, RequestParams}
use scrooge_dlp.Certificates.Identity.{with_root, to_option, first_name, enroll-accept}
use scrooge_dlp.Manager.World.{Uuid, Bytes, World, Faults}
use scrooge_dlp.Manager.Enroll.{Authority, EnrollRequest, EnrollResponse, Status}
use scrooge_dlp.Manager.Enroll
use scrooge_dlp.Manager.Stream.{accept}
use scrooge_dlp.Manager.Stream
use scrooge_dlp.Agent.Identity.{
  AgentState, DataDir, StartError, enrolling, Uuids, load, save, saved, save-load,
}
use scrooge_dlp.Agent.Identity
use scrooge_dlp.Agent.Enrollment.{
  SystemInfo, EnrollmentParams, Network, request_of, parts, prepare, answered, enroll,
}

-- The manager at the other end, with the faults of its queries.
abbrev pub manager : Authority → Faults → (Text → Text → Bool) → Network World
manager ca fs reaches = record {
  connects = λ root host endpoint. reaches host endpoint;
  send = λ req w. (to_option (Enroll.enroll ca req fs w).0, (Enroll.enroll ca req fs w).2);
}

-- An agent that got an identity got it in an answer of the manager.
record Given (uuids : Uuids) (ca : Authority) (fs : Faults) (w : World) (s : AgentState)
    (w' : World) : Type 0 where
  req : EnrollRequest
  resp : EnrollResponse
  left : Faults
  run : Enroll.enroll ca req fs w ≡ (ok resp, left, w')
  id : uuids.parse_str (codes resp.agent_id) ≡ some s.agent_id
  cert : s.cert_pem ≡ codes resp.cert_pem

answered_triple :
    {A B C : Type 0} (x : A × B × C) (a : A) (c : C) → x.0 ≡ a → x.2 ≡ c → x ≡ (a, x.1, c)
answered_triple (x, y, z) a c p q = rw (p, q)

no_answer : (uuids : Uuids) (key : Text) → Identity.enroll uuids key none ≡ err enrolling
unfolding Identity.enroll
no_answer uuids key = refl

identity-parts :
    (uuids : Uuids) (key : Text) (resp : EnrollResponse) (s : AgentState)
    → Identity.enroll uuids key (parts (some resp)) ≡ ok s
    → (uuids.parse_str (codes resp.agent_id) ≡ some s.agent_id) × (s.cert_pem ≡ codes resp.cert_pem)
unfolding Identity.enroll
identity-parts uuids key resp s h = elim (Option-cases (uuids.parse_str (codes resp.agent_id))) [
  | inl e ↦ absurd (cc (rw e at h))
  | inr (id, e) ↦
      (let same : ◌≡◌ {A = Outcome StartError AgentState}
            (ok (record { agent_id = id; cert_pem = codes resp.cert_pem; key_pem = key })) (ok s) =
          rw e at h in
        let state : record { agent_id = id; cert_pem = codes resp.cert_pem; key_pem = key } ≡ s =
          cc same in
        (e ∙ ap (λ x. some x.agent_id) state, sym (ap (λ x. x.cert_pem) state)))
]

module _ (r : Rcgen) (uuids : Uuids) (ca : Authority) (fs : Faults) (reaches : Text → Text → Bool)
    (seed : r.Seed) (pair : Option r.KeyPair) (params : EnrollmentParams) (info : SystemInfo) where
  enroll-Given :
      (w w' : World) (s : AgentState)
      → enroll r uuids (manager ca fs reaches) seed pair params info w ≡ (ok s, w')
      → Given uuids ca fs w s w'
  unfolding enroll
  enroll-Given w w' s h =
      elim (Outcome-cases (prepare r uuids (manager ca fs reaches) seed pair params info)) [
        | inl (e, p) ↦ absurd (cc (ap (λ x. x.0) (rw (enroll, p) at h)))
        | inr ((csr, key), p) ↦
            (let refused = no_answer uuids (codes key) in
              let req = request_of params info csr in
              let k : answered r uuids (manager ca fs reaches) seed pair params info key
                    ((manager ca fs reaches).send req w)
                  ≡ (ok s, w') =
                rw (enroll, p) at h in
              elim (Outcome-cases (Enroll.enroll ca req fs w).0) [
                | inl (e, q) ↦ absurd (cc (refused, ap (λ x. x.0) (rw q at k)))
                | inr (resp, q) ↦
                    (let (id, cert) =
                        identity-parts uuids (codes key) resp s (ap (λ x. x.0) (rw q at k)) in
                      record {
                        req = req;
                        resp = resp;
                        left = (Enroll.enroll ca req fs w).1;
                        run =
                            answered_triple (Enroll.enroll ca req fs w) (ok resp) w' q
                              (ap (λ x. x.1) k);
                        id = id;
                        cert = cert;
                      })
              ])
      ]

-- An agent that enrolls with the manager, under whichever faults, comes to the identity that the manager
-- entered for it; its certificate is one by which `stream` takes it for that very agent; and it loads
-- this identity again once it was saved. As in `enroll-accept`, a certificate of rcgen bears the name
-- that was signed; the texts of an identity are parsed as that identity at both ends.
pub enroll-accepted :
    (r : Rcgen) (root : RootCa r) (seed : r.Seed) (base : Authority) (uuids : Uuids) {Cert : Type 0}
    (x509 : Stream.Certificates Cert) (der_of : Text → Bytes)
    → ((q : RequestParams r.PublicKey) (c : r.Certificate)
        → r.signed_by q root.cert root.key_pair seed ≡ some c
        → (x : Cert) × (x509.from_der (der_of (codes (r.pem c))) ≡ some x)
          × (x509.common_name x ≡ first_name q.params.distinguished_name))
    → ((id : Uuid) → x509.parse_uuid (base.to_string id) ≡ some id)
    → ((id : Uuid) → uuids.parse_str (codes (base.to_string id)) ≡ some id)
    → ((id : Uuid) → uuids.parse_str (trim (uuids.to_string id)) ≡ some id)
    → (fs : Faults) (reaches : Text → Text → Bool) (csr_seed : r.Seed) (pair : Option r.KeyPair)
      (params : EnrollmentParams) (info : SystemInfo) (w w' : World) (s : AgentState) (d : DataDir)
    → enroll r uuids (manager (with_root r root seed base) fs reaches) csr_seed pair params info w
      ≡ (ok s, w')
    → (s.agent_id ≡ base.new_v4)
      × (accept x509 (some (der_of s.cert_pem ∷ [])) false w' ≡ ok s.agent_id)
      × (load uuids true (save uuids saved s d).1 ≡ ok (some s))
enroll-accepted r root seed base uuids x509 der_of bears reads parses trims fs reaches csr_seed pair
      params info w w' s d enrolled =
    let g =
      enroll-Given r uuids (with_root r root seed base) fs reaches csr_seed pair params info w w' s
        enrolled in
    let (accepted, named) =
      enroll-accept r root seed base x509 (λ t. der_of (codes t)) bears reads g.req fs g.left w w'
        g.resp g.run in
    let same : s.agent_id ≡ base.new_v4 = cc (g.id, named, parses base.new_v4) in
    (same, rw (g.cert, same) accepted, save-load uuids s d (trims s.agent_id))
