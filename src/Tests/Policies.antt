-- ===== src/Tests/Policies.antt =====
-- Policies: sizes, validation, and the handlers on a small database.
use scrooge_dlp.Common.{
  ℕ, String, true, false, none, some, List, [], ◌∷◌, ◌≡◌, ◌↔◌, refl, arith, ok, err, ◌*◌, ◌<◌,
}
use scrooge_dlp.Common.Text.{codes}
use scrooge_dlp.Common.Int.{pos}
use scrooge_dlp.Policy.Defs.{Policy}
use scrooge_dlp.Policy.Size.{parse_size, decimal, multiplier}
use scrooge_dlp.Policy.Size.Laws.{parse_size-wraps}
use scrooge_dlp.Policy.Validate.{validate, validate_rules, is_slug}
use scrooge_dlp.Policy.Validate.Laws.{validate_iff, IsValidPolicy}
use scrooge_dlp.Policy.Compile.{Codecs, from_yaml, compile, from_policy}
use scrooge_dlp.Manager.Policies.Restore.{Change, changed, create-rollback}
use scrooge_dlp.Manager.World.{World, PolicyRow, succ_i32}
use scrooge_dlp.Manager.Api.{forbidden, database, Claims, AppState}
use scrooge_dlp.Manager.Policies.{
  PolicyDto, to_dto, find_policy, PolicyRequest, Parsed, parse_and_compile, create, update, delete_,
  get,
}
use scrooge_dlp.Manager.Policies.Versions.{rollback, history}
use scrooge_dlp.Manager.Policies.Listing
use scrooge_dlp.Manager.Policies.Listing.{list}
use scrooge_dlp.Manager.Policies.Access.{handlers_forbidden}
use scrooge_dlp.Manager.Policies.Update.{update-torn, rows_updated}
use scrooge_dlp.Manager.Policies.Create.{created_row, all_created}
use scrooge_dlp.Manager.Policies.Stored.{Stored}
use scrooge_dlp.Manager.Policies.Stored.Visits.{
  PolicyCall, create_call, update_call, rollback_call, delete_call, Visit, visited_all,
  visited_all-Stored,
}

parse_size-wraps_example :
    (n : ℕ) × (parse_size (codes "17179869184G") ≡ ok n) × (n < 17179869184 * 1073741824)
unfolding decimal multiplier
parse_size-wraps_example =
    parse_size-wraps (codes "17179869184") (codes "G") 1073741824 refl (λ e. cc e) (omega arith)
      refl (omega arith)

abbrev document : Policy
document = record {
  api_version = "scroogedlp.io/v1";
  kind = "Policy";
  metadata = record { name = "usb"; description = none; version = 1 };
  targets = record {
    match_ = record { os = []; tags = []; groups = []; agent_ids = [] };
    exclude = record { hostnames = []; agent_ids = [] };
  };
  priority = pos 10;
  rules = record { inbound = []; outbound = [] };
  monitored_paths = [];
  classifiers = [];
}

validate_iff_example : (validate (λ s. true) document ≡ ok tt) ↔ IsValidPolicy (λ s. true) document
validate_iff_example = validate_iff (λ s. true) document

-- Every text is the YAML of the one document, and its compiled form has one byte.
abbrev codecs : Codecs
codecs = record {
  parse_yaml = λ s. some document;
  to_vec = λ p. some (1 ∷ []);
  from_slice = λ b. some document;
  sha256_hex = λ b. "4bf5";
  compiles = λ s. true;
}

abbrev app : AppState
app = record {
  codecs = codecs;
  targets_json = λ t. some "{}";
  policy_json = λ p. none;
  parse_uuid = λ s. some 7;
  name_before = λ a b. false;
  push_capacity = some 64;
  now = 1000;
}

abbrev admin : Claims
admin = record { sub = "7"; username = "root"; role = "admin"; exp = pos 2000; iat = pos 900 }

abbrev empty : World
empty = record {
  policies = [];
  history = [];
  assignments = [];
  agents = [];
  tokens = [];
  users = [];
  refresh_tokens = [];
  pushes = [];
}

abbrev request : PolicyRequest
request = record { content_yaml = "second"; change_reason = none }

abbrev first_request : PolicyRequest
first_request = record { content_yaml = "first"; change_reason = none }

abbrev parsed : Parsed
parsed = (document, record { name = "usb"; version = 1; payload = 1 ∷ []; hash = "4bf5" }, "{}")

parses : (s : String) → parse_and_compile app s ≡ ok parsed
unfolding parse_and_compile from_yaml compile from_policy validate validate_rules is_slug
parses s = refl

reads : from_yaml codecs "first" ≡ ok document
unfolding from_yaml validate validate_rules is_slug
reads = refl

compiles : compile codecs document ≡ ok (parsed.1)
unfolding compile from_policy
compiles = refl

-- The database after the first request.
abbrev one : World
one = all_created app admin first_request parsed 7 empty

abbrev row : PolicyRow
row = created_row app admin first_request parsed 7

update-torn_example :
    update app admin "usb" request (false ∷ false ∷ true ∷ []) one
    ≡ (err database, [], rows_updated app admin request parsed 7 one row one)
update-torn_example =
    update-torn app admin request parsed 7 one row refl (parses "second") refl refl []

abbrev analyst : Claims
analyst = record { sub = "8"; username = "ann"; role = "analyst"; exp = pos 2000; iat = pos 900 }

-- The policy is changed, and once more by someone who may not and under a fault.
abbrev changes : List Change
changes =
    record { app = app; claims = admin; req = request; faults = [] }
    ∷ record { app = app; claims = analyst; req = request; faults = [] }
    ∷ record { app = app; claims = admin; req = request; faults = false ∷ false ∷ true ∷ [] }
    ∷ []

create-rollback_example :
    (w1 : World) × (d1 d2 : PolicyDto) × (current : PolicyRow) × (create app admin first_request []
        empty
      ≡ (ok d1, [], w1))
    × (find_policy "usb" (changed "usb" changes w1) ≡ some current)
    × ((rollback app admin "usb" d1.version "back" [] (changed "usb" changes w1)).0 ≡ ok d2)
    × (d2.content_yaml ≡ "first")
    × (d2.content_hash ≡ d1.content_hash)
    × (d2.version ≡ succ_i32 current.version)
    × ((r : PolicyRow) × (find_policy "usb"
            (rollback app admin "usb" d1.version "back" [] (changed "usb" changes w1)).2
          ≡ some r)
        × (to_dto r ≡ d2)
        × (r.content_compiled ≡ row.content_compiled))
create-rollback_example =
    create-rollback app admin first_request parsed 7 empty refl (parses "first") refl refl refl
      changes app admin 7 "back" refl refl (parses "first")

handlers_forbidden_example :
    (list app analyst [] one ≡ (err forbidden, [], one))
    × (get app analyst "usb" [] one ≡ (err forbidden, [], one))
    × (create app analyst request [] one ≡ (err forbidden, [], one))
    × (update app analyst "usb" request [] one ≡ (err forbidden, [], one))
    × (delete_ app analyst "usb" [] one ≡ (err forbidden, [], one))
    × (history app analyst "usb" [] one ≡ (err forbidden, [], one))
    × (rollback app analyst "usb" (pos 1) "" [] one ≡ (err forbidden, [], one))
    × (Listing.validate app analyst "second" [] one ≡ (err forbidden, [], one))
handlers_forbidden_example =
    handlers_forbidden app analyst [] one (λ e. cc e) "usb" "" (pos 1) request

-- A policy is created, changed, taken back and deleted, and created again.
abbrev visit : PolicyCall → Visit
visit c = record { now = 50; push_capacity = some 4; claims = admin; faults = []; call = c }

abbrev visits : List Visit
visits =
    visit (create_call first_request)
    ∷ visit (update_call "usb" request)
    ∷ visit (rollback_call "usb" (pos 1) "rollback to v1")
    ∷ visit (delete_call "usb")
    ∷ visit (create_call first_request)
    ∷ []

visited_all-Stored_example : Stored (parse_and_compile app) (visited_all app visits empty)
visited_all-Stored_example =
    visited_all-Stored app visits empty (record { keyed = tt; compiled = tt; documents = tt })
