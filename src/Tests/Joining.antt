-- ===== src/Tests/Joining.antt =====
-- An agent enrolls with the manager, with the crate of Tests/Certs; an identity of the agent is a number
-- between two letters.
use scrooge_dlp.Common.{
  ℕ, zero, suc, String, Bool, true, false, Option, none, some, [], ◌∷◌, ◌≡◌, refl, ap, ◌∙◌, arith,
  ok, length, if◌then◌else◌, ◌==◌,
}
use scrooge_dlp.Common.Text.{Text, codes}
use scrooge_dlp.Certificates.{generate_agent_csr, sign_csr_with_cn}
use scrooge_dlp.Certificates.Identity.{with_root}
use scrooge_dlp.Manager.World.{Uuid, World, pure, lift, query, select, execute}
use scrooge_dlp.Manager.World
use scrooge_dlp.Manager.Enroll
use scrooge_dlp.Manager.Stream.{accept}
use scrooge_dlp.Agent.Identity.{AgentState, DataDir, Uuids, load, save, saved}
use scrooge_dlp.Agent.Identity
use scrooge_dlp.Policy.Size.{trim}
use scrooge_dlp.Agent.Enrollment.{SystemInfo, EnrollmentParams, enroll}
use scrooge_dlp.Agent.Enrollment.Joined.{manager, enroll-accepted}
use scrooge_dlp.Tests.Enrollments.{world}
use scrooge_dlp.Tests.Certs.{tally, count, count-tally, bears, crate, root, x509, base}

abbrev second : Text → Option Uuid
second [] = none
second (n ∷ t) = some n

abbrev read_id : Text → Option Uuid
read_id [] = some 0
read_id (c ∷ t) = if c == 65 then second t else some (suc (length t))

abbrev uuids : Uuids
uuids = record { parse_str = read_id; to_string = λ n. 65 ∷ n ∷ 65 ∷ [] }

length-codes : (s : String) → length (codes s) ≡ count s
length-codes String.[] = refl
length-codes (String.◌∷◌ c s) = let rest = length-codes s in omega (arith, rest)

length-tally : (n : ℕ) → length (codes (tally n)) ≡ n
length-tally zero = refl
length-tally (suc n) = let rest = length-tally n in omega (arith, rest)

read_id-tally : (n : ℕ) → read_id (codes (tally n)) ≡ some n
read_id-tally zero = refl
read_id-tally (suc n) = ap some (length-tally (suc n))

trims : (n : ℕ) → uuids.parse_str (trim (uuids.to_string n)) ≡ some n
unfolding trim
trims n = refl

abbrev info : SystemInfo
info = record {
  hostname = "pc";
  os = "linux";
  os_version = "6";
  arch = "x86_64";
  agent_version = "0.2";
}

abbrev params : EnrollmentParams
params = record {
  endpoint = codes "manager:8443";
  ca_cert = some "Root";
  enrollment_token = "secret";
}

abbrev identity : AgentState
identity = record { agent_id = 7; cert_pem = codes "|||||||"; key_pem = codes "|||" }

abbrev reaches : Text → Text → Bool
reaches host endpoint = true

abbrev joined : World
joined =
    (enroll crate uuids (manager (with_root crate root 4 base) [] reaches) 6 (some 3) params info
      (world 1)).1

agent_enrolls :
    enroll crate uuids
      (manager (with_root crate root 4 base) [] reaches)
      6
      (some 3)
      params
      info
      (world 1)
    ≡ (ok identity, joined)
unfolding enroll generate_agent_csr sign_csr_with_cn Identity.enroll Enroll.enroll pure lift query
    select execute World.◌>>=◌
agent_enrolls = refl

abbrev no_files : DataDir
no_files = record { cert = none; key = none; id = none }

enroll-accepted_example :
    (identity.agent_id ≡ 7)
    × (accept x509 (some ((7 ∷ []) ∷ [])) false joined ≡ ok 7)
    × (load uuids true (save uuids saved identity no_files).1 ≡ ok (some identity))
enroll-accepted_example =
    enroll-accepted crate root 4 base uuids x509 (λ t. length t ∷ [])
      (λ q c h. (
        length (codes c.name),
        refl,
        ap (λ n. some (tally n)) (length-codes c.name) ∙ bears q root.cert root.key_pair 4 c h,
      ))
      (λ id. ap some (count-tally id)) read_id-tally trims [] reaches 6 (some 3) params info
      (world 1) joined identity no_files agent_enrolls
