-- ===== src/Tests/Certs.antt =====
-- A small crate of certificates: a key is a number, and a certificate bears the randomness it was
-- signed with, which is not in its text. Then a root that
-- is saved and loaded again, and an agent that is enrolled and opens its stream.
use scrooge_dlp.Common.{
  ℕ, String, true, false, Option, none, some, List, [], ◌∷◌, ◌≡◌, refl, sym, ap, ◌∙◌, subst, zero,
  suc, ok, str_eq, eq_iff, if◌then◌else◌, Bool-cases, inl, inr, ◌+◌, ◌==◌, arith,
}
use scrooge_dlp.Manager.World.{Uuid, Bytes, World, pure, lift, query, select, execute}
use scrooge_dlp.Manager.World
use scrooge_dlp.Manager.Enroll.{Authority, EnrollResponse, enroll}
use scrooge_dlp.Manager.Stream.{accept}
use scrooge_dlp.Manager.Stream
use scrooge_dlp.Certificates.{
  CertificateParams, RequestParams, Rcgen, DnType, common_name, organization_name, name_of, RootCa,
  generate, load_from_files, sign_csr_with_cn,
}
use scrooge_dlp.Certificates.Identity.{with_root, first_name, enroll-accept}
use scrooge_dlp.Certificates.Reload.{X509, Signs, IssuesFor, load_from_files-generate}
use scrooge_dlp.Tests.Enrollments.{authority, request, world}

-- A number as so many strokes.
abbrev pub tally : ℕ → String
tally zero = ""
tally (suc n) = String.◌∷◌ "|" (tally n)

abbrev pub count : String → ℕ
count String.[] = 0
count (String.◌∷◌ c s) = count s + 1

pub count-tally : (n : ℕ) → count (tally n) ≡ n
count-tally zero = refl
count-tally (suc n) = (let rest = count-tally n in omega (arith, rest))

abbrev pub params_of : List (DnType × String) → CertificateParams
params_of dn = record {
  is_ca = true;
  key_usages = [];
  extended_key_usages = [];
  distinguished_name = dn;
  subject_alt_names = [];
}

-- The subject of a root, which is of the organization "ScroogeDLP".
abbrev pub subject : List (DnType × String) → Option String
subject ((common_name, n) ∷ (organization_name, o) ∷ []) =
    if str_eq "ScroogeDLP" o then some n else none
subject dn = none

pub subject-name :
    (dn : List (DnType × String)) (n : String) → subject dn ≡ some n → name_of n "ScroogeDLP" ≡ dn
subject-name ((common_name, m) ∷ (organization_name, o) ∷ []) n h =
    elim (Bool-cases (str_eq "ScroogeDLP" o)) [
      | inl e ↦
          (let same : o ≡ "ScroogeDLP" = sym ((eq_iff "ScroogeDLP" o).0 e) in
            let name : m ≡ n = cc (rw e at h) in rw (same, name))
      | inr e ↦ absurd (cc (rw e at h))
    ]
subject-name dn n h = absurd (cc h)

-- Only names that are strokes are signed.
abbrev pub sign : Option String → Option String
sign none = none
sign (some s) = if str_eq (tally (count s)) s then some s else none

pub sign-strokes : (o : Option String) (s : String) → sign o ≡ some s → some (tally (count s)) ≡ o
sign-strokes none s h = absurd (cc h)
sign-strokes (some t) s h = elim (Bool-cases (str_eq (tally (count t)) t)) [
  | inl e ↦
      (let name : t ≡ s = cc (rw e at h) in
        subst (λ x. some (tally (count x)) ≡ some t) name
          (ap some ((eq_iff (tally (count t)) t).0 e)))
  | inr e ↦ absurd (cc (rw e at h))
]

pub record Cert : Type 0 where
  pub name : String
  pub organization : String
  pub issuer : List (DnType × String)
  pub key : ℕ
  pub signer : ℕ
  pub seed : ℕ

abbrev pub subject_of : Cert → List (DnType × String)
subject_of c = name_of c.name c.organization

abbrev pub of_root : String → ℕ → ℕ → Cert
of_root n k s = record {
  name = n;
  organization = "ScroogeDLP";
  issuer = name_of n "ScroogeDLP";
  key = k;
  signer = k;
  seed = s;
}

abbrev pub self : ℕ → ℕ → Option String → Option Cert
self k s none = none
self k s (some n) = some (of_root n k s)

abbrev pub issue : Cert → ℕ → ℕ → ℕ → Option String → Option Cert
issue by public_key k s none = none
issue by public_key k s (some n) = some (record {
  name = n;
  organization = "ScroogeDLP Agent";
  issuer = subject_of by;
  key = public_key;
  signer = k;
  seed = s;
})

self-name :
    (k s : ℕ) (o : Option String) (c : Cert)
    → self k s o ≡ some c
    → (o ≡ some c.name) × (c.organization ≡ "ScroogeDLP") × (c.key ≡ k)
self-name k s none c h = absurd (cc h)
self-name k s (some n) c h =
    let made : of_root n k s ≡ c = cc h in
    subst (λ x. (some n ≡ some x.name) × (x.organization ≡ "ScroogeDLP") × (x.key ≡ k)) made
      (refl, refl, refl)

pub issue-name :
    (by : Cert) (public_key k s : ℕ) (o : Option String) (c : Cert)
    → issue by public_key k s o ≡ some c
    → (o ≡ some c.name) × (c.issuer ≡ subject_of by) × (c.signer ≡ k)
issue-name by public_key k s none c h = absurd (cc h)
issue-name by public_key k s (some n) c h =
    subst
      (λ x. elim x [
        | none ↦ Unit {0}
        | some y ↦ (some n ≡ some y.name) × (y.issuer ≡ subject_of by) × (y.signer ≡ k)
      ])
      h (refl, refl, refl)

abbrev pub crate : Rcgen
crate = record {
  Certificate = Cert;
  KeyPair = ℕ;
  PublicKey = ℕ;
  Seed = ℕ;
  new_params = λ names. some (params_of []);
  self_signed = λ p k s. self k s (subject p.distinguished_name);
  pem = λ c. c.name;
  serialize_pem = tally;
  from_pem = λ s. some (count s);
  from_ca_cert_pem = λ s. some (params_of (name_of s "ScroogeDLP"));
  request_from_pem =
      λ s. some (record { params = params_of ((common_name, s) ∷ []); public_key = 5 });
  signed_by = λ q c k s. issue c q.public_key k s (sign (first_name q.params.distinguished_name));
  serialize_request = λ p k s. some "||";
  is_ip = λ s. str_eq s "127.0.0.1";
}

-- The name in a certificate is that of the request, in strokes.
pub bears :
    (q : RequestParams ℕ) (by : Cert) (k s : ℕ) (c : Cert)
    → crate.signed_by q by k s ≡ some c
    → some (tally (count c.name)) ≡ first_name q.params.distinguished_name
bears q by k s c h =
    sign-strokes (first_name q.params.distinguished_name) c.name
      (issue-name by q.public_key k s (sign (first_name q.params.distinguished_name)) c h).0

abbrev pub root : RootCa crate
root = record { cert = of_root "Root" 3 1; key_pair = 3; cert_pem = "Root"; key_pem = "|||" }

generate_root : generate crate 1 (some 3) "Root" ≡ ok root
unfolding generate
generate_root = refl

abbrev pub reader : X509 crate
reader = record {
  subject = subject_of;
  issuer = λ c. c.issuer;
  key = λ c. c.key;
  public_key = λ k. k;
  checks = λ k c. k == c.signer;
}

eq_self : (k : ℕ) → (k == k) ≡ true
eq_self k = ground arith

pub signs : Signs reader
signs = record {
  reads_key = λ k. ap some (count-tally k);
  reads_name = λ p k s c h.
      let (named, org, key) = self-name k s (subject p.distinguished_name) c h in
      (
        params_of (name_of c.name "ScroogeDLP"),
        refl,
        ap (name_of c.name) (sym org),
        (λ t. (of_root c.name k t, refl)),
      );
  roots = λ p k s c h.
      let (named, org, key) = self-name k s (subject p.distinguished_name) c h in
      (ap (name_of c.name) org ∙ subject-name p.distinguished_name c.name named, key);
  signs = λ q c k s signed h.
      let (named, issuer, signer) =
        issue-name c q.public_key k s (sign (first_name q.params.distinguished_name)) signed h in
      (issuer, subst (λ n. (k == n) ≡ true) (sym signer) (eq_self k));
}

load_from_files-generate_example :
    (loaded : RootCa crate) × (load_from_files crate 2 (some "Root") (some "|||") ≡ ok loaded)
    × (loaded.key_pair ≡ root.key_pair)
    × IssuesFor reader loaded root.cert
load_from_files-generate_example =
    load_from_files-generate reader signs 1 2 (some 3) "Root" root generate_root

abbrev pub x509 : Stream.Certificates ℕ
x509 = record {
  from_der = λ b. elim b [ [] ↦ none | c ∷ cs ↦ some c ];
  common_name = λ n. some (tally n);
  parse_uuid = λ s. some (count s);
}

-- Identities are written in strokes, and there is room for one more agent.
abbrev pub base : Authority
base = record authority { to_string = tally; from_utf8 = λ b. some "||" }

abbrev answer : EnrollResponse
answer = record { agent_id = "|||||||"; cert_pem = "|||||||"; ca_chain_pem = "Root" }

abbrev enrolled : World
enrolled = (enroll (with_root crate root 4 base) request [] (world 1)).2

enroll_answers :
    enroll (with_root crate root 4 base) request [] (world 1) ≡ (ok answer, [], enrolled)
unfolding enroll sign_csr_with_cn pure lift query select execute World.◌>>=◌
enroll_answers = refl

enroll-accept_example :
    (accept x509 (some ((7 ∷ []) ∷ [])) false enrolled ≡ ok 7) × (answer.agent_id ≡ "|||||||")
enroll-accept_example =
    enroll-accept crate root 4 base x509 (λ s. count s ∷ [])
      (λ q c h. (count c.name, refl, bears q root.cert root.key_pair 4 c h))
      (λ id. ap some (count-tally id)) request [] [] (world 1) enrolled answer enroll_answers
