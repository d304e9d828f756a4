-- ===== src/Certificates.antt =====
-- crates/scrooge-common/src/ca.rs: the root certificate of the manager, and the requests for a
-- certificate. The crate rcgen, with its X.509 and its keys, is a parameter, and so are the files.
pub mod Identity
pub mod Reload
use scrooge_dlp.Common.{
  String, Bool, true, false, not, Option, none, some, List, [], ◌∷◌, ◌++◌, Outcome, ok, err, ok_or,
  ◌>>=◌, if◌then◌else◌, map, filter,
}

pub data CaError : Type 0 where
  io rcgen : CaError

pub data KeyUsage : Type 0 where
  key_cert_sign crl_sign digital_signature key_encipherment : KeyUsage

pub data ExtendedKeyUsage : Type 0 where
  server_auth : ExtendedKeyUsage

pub data DnType : Type 0 where
  common_name organization_name : DnType

pub data SanType : Type 0 where
  dns_name ip_address : String → SanType

-- `CertificateParams`, of which the source sets these fields.
pub record CertificateParams : Type 0 where
  pub is_ca : Bool
  pub key_usages : List KeyUsage
  pub extended_key_usages : List ExtendedKeyUsage
  pub distinguished_name : List (DnType × String)
  pub subject_alt_names : List SanType

-- `CertificateSigningRequestParams`
pub record RequestParams (PublicKey : Type 0) : Type 0 where
  pub params : CertificateParams
  pub public_key : PublicKey

-- What the crate gives: certificates, key pairs and public keys, and the functions on them that the
-- source calls; `none` is an error of rcgen. A signature is made with some randomness, a `Seed`, so
-- that two certificates of the same fields differ. `new_params` is `CertificateParams::new`, which takes
-- names, `is_ip` says whether a text parses as an address.
pub record Rcgen : Type 1 where
  pub Certificate : Type 0
  pub KeyPair : Type 0
  pub PublicKey : Type 0
  pub Seed : Type 0
  pub new_params : List String → Option CertificateParams
  pub self_signed : CertificateParams → KeyPair → Seed → Option Certificate
  pub pem : Certificate → String
  pub serialize_pem : KeyPair → String
  pub from_pem : String → Option KeyPair
  pub from_ca_cert_pem : String → Option CertificateParams
  pub request_from_pem : String → Option (RequestParams PublicKey)
  pub signed_by : RequestParams PublicKey → Certificate → KeyPair → Seed → Option Certificate
  pub serialize_request : CertificateParams → KeyPair → Seed → Option String
  pub is_ip : String → Bool

-- `DistinguishedName` with the two entries that the source pushes.
abbrev pub name_of : String → String → List (DnType × String)
name_of cn organization = (common_name, cn) ∷ (organization_name, organization) ∷ []

module _ (r : Rcgen) where
  open r use {
    Certificate, KeyPair, PublicKey, Seed, new_params, self_signed, pem, serialize_pem, from_pem,
    from_ca_cert_pem, request_from_pem, signed_by, serialize_request, is_ip,
  }

  pub record RootCa : Type 0 where
    pub cert : Certificate
    pub key_pair : KeyPair
    pub cert_pem : String
    pub key_pem : String

  abbrev pub root_params : String → CertificateParams → CertificateParams
  root_params subject_cn p = record p {
    is_ca = true;
    key_usages = key_cert_sign ∷ crl_sign ∷ digital_signature ∷ [];
    distinguished_name = name_of subject_cn "ScroogeDLP";
  }

  -- `RootCa::generate`, with the key pair that `KeyPair::generate` gives.
  unfoldable pub generate : Seed → Option KeyPair → String → Outcome CaError RootCa
  generate seed generated subject_cn = do
    params ← ok_or (new_params []) rcgen
    key_pair ← ok_or generated rcgen
    cert ← ok_or (self_signed (root_params subject_cn params) key_pair seed) rcgen
    ok (record {
      cert = cert;
      key_pair = key_pair;
      cert_pem = pem cert;
      key_pem = serialize_pem key_pair;
    })

  -- `load_from_files`, from the texts of the two files, where they can be read.
  unfoldable pub load_from_files : Seed → Option String → Option String → Outcome CaError RootCa
  load_from_files seed cert_file key_file = do
    cert_text ← ok_or cert_file io
    key_text ← ok_or key_file io
    key_pair ← ok_or (from_pem key_text) rcgen
    params ← ok_or (from_ca_cert_pem cert_text) rcgen
    cert ← ok_or (self_signed params key_pair seed) rcgen
    ok (record { cert = cert; key_pair = key_pair; cert_pem = pem cert; key_pem = key_text })

  -- `sign_csr`
  unfoldable pub sign_csr : Seed → RootCa → String → Outcome CaError String
  sign_csr seed ca csr_pem = do
    csr ← ok_or (request_from_pem csr_pem) rcgen
    signed ← ok_or (signed_by csr ca.cert ca.key_pair seed) rcgen
    ok (pem signed)

  abbrev pub renamed : String → RequestParams PublicKey → RequestParams PublicKey
  renamed subject_cn csr = record csr {
    params = record csr.params { distinguished_name = name_of subject_cn "ScroogeDLP Agent" };
  }

  -- `sign_csr_with_cn`
  unfoldable pub sign_csr_with_cn : Seed → RootCa → String → String → Outcome CaError String
  sign_csr_with_cn seed ca csr_pem subject_cn = do
    csr ← ok_or (request_from_pem csr_pem) rcgen
    signed ← ok_or (signed_by (renamed subject_cn csr) ca.cert ca.key_pair seed) rcgen
    ok (pem signed)

  abbrev pub server_params : String → List String → CertificateParams → CertificateParams
  server_params cn ips p = record p {
    subject_alt_names = p.subject_alt_names ++ map ip_address ips;
    distinguished_name = name_of cn "ScroogeDLP";
    key_usages = digital_signature ∷ key_encipherment ∷ [];
    extended_key_usages = server_auth ∷ [];
  }

  -- `generate_server_csr`: the request and the key, as PEM.
  unfoldable pub generate_server_csr :
      Seed → Option KeyPair → String → List String → Outcome CaError (String × String)
  generate_server_csr seed generated cn sans = do
    key_pair ← ok_or generated rcgen
    params ← ok_or (new_params (filter (λ s. not (is_ip s)) sans)) rcgen
    csr_pem ←
        ok_or (serialize_request (server_params cn (filter is_ip sans) params) key_pair seed) rcgen
    ok (csr_pem, serialize_pem key_pair)

  -- `generate_agent_csr`
  unfoldable pub generate_agent_csr :
      Seed → Option KeyPair → String → Outcome CaError (String × String)
  generate_agent_csr seed generated cn = do
    key_pair ← ok_or generated rcgen
    params ← ok_or (new_params (cn ∷ [])) rcgen
    csr_pem ←
        ok_or
          (serialize_request (record params { distinguished_name = name_of cn "ScroogeDLP Agent" })
            key_pair seed)
          rcgen
    ok (csr_pem, serialize_pem key_pair)
