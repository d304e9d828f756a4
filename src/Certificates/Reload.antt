-- ===== src/Certificates/Reload.antt =====
-- ca.rs: a root certificate that is saved and loaded again.
use scrooge_dlp.Common.{
  Bool, true, ◌∙◌, List, sym, [], String, Option, some, ◌≡◌, refl, subst, Outcome, ok, Option-cases,
  inl, inr,
}
use scrooge_dlp.Certificates.{
  CaError, Rcgen, DnType, CertificateParams, RequestParams, RootCa, root_params, generate,
  load_from_files, sign_csr, sign_csr_with_cn, renamed,
}

module _ (r : Rcgen) (seed : r.Seed) where
  -- What `generate` gave.
  record Generated (subject_cn : String) (ca : RootCa r) : Type 0 where
    params : CertificateParams
    signed : r.self_signed (root_params r subject_cn params) ca.key_pair seed ≡ some ca.cert
    cert_text : ca.cert_pem ≡ r.pem ca.cert
    key_text : ca.key_pem ≡ r.serialize_pem ca.key_pair

  generate-Generated :
      (key : Option r.KeyPair) (subject_cn : String) (ca : RootCa r)
      → generate r seed key subject_cn ≡ ok ca
      → Generated subject_cn ca
  unfolding generate
  generate-Generated key subject_cn ca h = elim (Option-cases (r.new_params [])) [
    | inl e ↦ absurd (cc (rw e at h))
    | inr (p, e) ↦ elim (Option-cases key) [
      | inl k ↦ absurd (cc (rw (e, k) at h))
      | inr (pair, k) ↦ elim (Option-cases (r.self_signed (root_params r subject_cn p) pair seed)) [
        | inl s ↦ absurd (cc (rw (e, k, s) at h))
        | inr (cert, s) ↦
            subst (Generated subject_cn) (made p pair cert (rw (e, k, s) at h))
              (record { params = p; signed = s; cert_text = refl; key_text = refl })
      ]
    ]
  ]
    where
      made :
          (p : CertificateParams) (pair : r.KeyPair) (cert : r.Certificate)
          → ◌≡◌ {A = Outcome CaError (RootCa r)}
              (ok (record {
                cert = cert;
                key_pair = pair;
                cert_pem = r.pem cert;
                key_pem = r.serialize_pem pair;
              }))
              (ok ca)
          → record {
            cert = cert;
            key_pair = pair;
            cert_pem = r.pem cert;
            key_pem = r.serialize_pem pair;
          }
            ≡ ca
      made p pair cert e = cc e

-- What the holder of a certificate of the root reads in it and in a certificate that is shown: the
-- names of the subject and of the issuer, and the key; and whether a signature is one of a key.
pub record X509 (r : Rcgen) : Type 0 where
  pub subject : r.Certificate → List (DnType × String)
  pub issuer : r.Certificate → List (DnType × String)
  pub key : r.Certificate → r.PublicKey
  pub public_key : r.KeyPair → r.PublicKey
  pub checks : r.PublicKey → r.Certificate → Bool

module _ {r : Rcgen} (x509 : X509 r) where
  -- A certificate names the root as its issuer, and its signature is one of the root's key.
  pub record IsIssuedBy (root cert : r.Certificate) : Type 0 where
    pub names : x509.issuer cert ≡ x509.subject root
    pub checks : x509.checks (x509.key root) cert ≡ true

  -- What is documented of rcgen: it reads a key and the name in a certificate of a root that it wrote,
  -- and signs what it read; it gives a root the name and the key that it is asked for; and it signs
  -- with the issuer's key and under the issuer's name.
  pub record Signs : Type 0 where
    pub reads_key : (k : r.KeyPair) → r.from_pem (r.serialize_pem k) ≡ some k
    pub reads_name :
        (p : CertificateParams) (k : r.KeyPair) (s : r.Seed) (c : r.Certificate)
        → r.self_signed p k s ≡ some c
        → (p' : CertificateParams) × (r.from_ca_cert_pem (r.pem c) ≡ some p')
          × (p'.distinguished_name ≡ x509.subject c)
          × ((t : r.Seed) → (c' : r.Certificate) × (r.self_signed p' k t ≡ some c'))
    pub roots :
        (p : CertificateParams) (k : r.KeyPair) (s : r.Seed) (c : r.Certificate)
        → r.self_signed p k s ≡ some c
        → (x509.subject c ≡ p.distinguished_name) × (x509.key c ≡ x509.public_key k)
    pub signs :
        (q : RequestParams r.PublicKey) (c : r.Certificate) (k : r.KeyPair) (s : r.Seed)
        (signed : r.Certificate)
        → r.signed_by q c k s ≡ some signed
        → (x509.issuer signed ≡ x509.subject c) × (x509.checks (x509.public_key k) signed ≡ true)

  -- Whatever this root signs, with whatever randomness, is issued by that certificate.
  pub record IssuesFor (ca : RootCa r) (root : r.Certificate) : Type 0 where
    pub requests :
        (t : r.Seed) (csr text : String)
        → sign_csr r t ca csr ≡ ok text
        → (c : r.Certificate) × (text ≡ r.pem c) × IsIssuedBy root c
    pub agents :
        (t : r.Seed) (csr cn text : String)
        → sign_csr_with_cn r t ca csr cn ≡ ok text
        → (c : r.Certificate) × (text ≡ r.pem c) × IsIssuedBy root c

  module _ (rcgen : Signs) (ca : RootCa r) (root : r.Certificate)
      (same_name : x509.subject ca.cert ≡ x509.subject root)
      (same_key : x509.key root ≡ x509.public_key ca.key_pair) where
    issued :
        (q : RequestParams r.PublicKey) (t : r.Seed) (c : r.Certificate)
        → r.signed_by q ca.cert ca.key_pair t ≡ some c
        → IsIssuedBy root c
    issued q t c h =
        let (names, checks) = rcgen.signs q ca.cert ca.key_pair t c h in
        record {
          names = names ∙ same_name;
          checks = subst (λ k. x509.checks k c ≡ true) (sym same_key) checks;
        }

    issues : IssuesFor ca root
    unfolding sign_csr sign_csr_with_cn
    issues = record {
      requests = λ t csr text h. elim (Option-cases (r.request_from_pem csr)) [
        | inl e ↦ absurd (cc (rw e at h))
        | inr (q, e) ↦ elim (Option-cases (r.signed_by q ca.cert ca.key_pair t)) [
          | inl s ↦ absurd (cc (rw (e, s) at h))
          | inr (c, s) ↦ (c, sym (cc (rw (e, s) at h)), issued q t c s)
        ]
      ];
      agents = λ t csr cn text h. elim (Option-cases (r.request_from_pem csr)) [
        | inl e ↦ absurd (cc (rw e at h))
        | inr (q, e) ↦ elim (Option-cases (r.signed_by (renamed r cn q) ca.cert ca.key_pair t)) [
          | inl s ↦ absurd (cc (rw (e, s) at h))
          | inr (c, s) ↦ (c, sym (cc (rw (e, s) at h)), issued (renamed r cn q) t c s)
        ]
      ];
    }

  -- A root that was generated and saved can be loaded, with its key, where rcgen does what `Signs` says;
  -- the certificate is made anew in that, and still whatever the loaded root signs is issued by the
  -- certificate that was saved.
  pub load_from_files-generate :
      Signs
      → (seed again : r.Seed) (key : Option r.KeyPair) (subject_cn : String) (ca : RootCa r)
      → generate r seed key subject_cn ≡ ok ca
      → (loaded : RootCa r) × (load_from_files r again (some ca.cert_pem) (some ca.key_pem)
          ≡ ok loaded)
        × (loaded.key_pair ≡ ca.key_pair)
        × IssuesFor loaded ca.cert
  unfolding load_from_files
  load_from_files-generate rcgen seed again key subject_cn ca made =
      let g = generate-Generated r seed key subject_cn ca made in
      let (p', found, named, anew) = rcgen.reads_name _ ca.key_pair seed ca.cert g.signed in
      let (c', signed) = anew again in
      let loaded : RootCa r = record {
        cert = c';
        key_pair = ca.key_pair;
        cert_pem = r.pem c';
        key_pem = ca.key_pem;
      } in
      (
        loaded,
        rw (g.cert_text, g.key_text, rcgen.reads_key ca.key_pair, found, signed),
        refl,
        issues rcgen loaded ca.cert ((rcgen.roots p' ca.key_pair again c' signed).0 ∙ named)
            (rcgen.roots _ ca.key_pair seed ca.cert g.signed).1,
      )
