-- ===== src/Policy/Defs.antt =====
-- crates/scrooge-policy/src/lib.rs and rules.rs: the data of a policy document. `HashMap` is an
-- association list.
use scrooge_dlp.Common.{ℕ, String, Bool, Option, List}
use scrooge_dlp.Common.Int.{ℤ}

pub data Severity : Type 0 where
  low medium high critical : Severity

pub data Action : Type 0 where
  log_only log_and_alert warn_user block quarantine lock_workstation kill_process : Action

pub data Source : Type 0 where
  usb : (except_serials : List String) → Source
  network_download : (domains domains_except : List String) → Source
  email_attachment : Source
  directory : (paths : List String) (recursive : Bool) → Source
  file_match : (classifiers : List String) → Source
  any : Source

pub data Destination : Type 0 where
  directory : (paths : List String) (recursive : Bool) → Destination
  usb : (except_serials : List String) → Destination
  network_upload : (domains : List String) → Destination
  clipboard print any_external any : Destination

-- A size in bytes, a `u64`.
pub record FileSize : Type 0 where
  pub bytes : ℕ

pub record Conditions : Type 0 where
  pub file_size_min : Option FileSize
  pub file_size_max : Option FileSize
  pub file_extensions : List String
  pub filename_regex : Option String
  pub path_regex : Option String

pub record Rule : Type 0 where
  pub id : String
  pub name : String
  pub enabled : Bool
  pub severity : Severity
  pub sources : List Source
  pub destinations : List Destination
  pub conditions : Option Conditions
  pub action : Action
  pub forward_to_siem : Bool
  pub notify_user : Bool
  pub message : Option String

pub record Metadata : Type 0 where
  pub name : String
  pub description : Option String
  pub version : ℕ  -- u32

pub record TargetMatch : Type 0 where
  pub os : List String
  pub tags : List (String × String)
  pub groups : List String
  pub agent_ids : List String

pub record TargetExclude : Type 0 where
  pub hostnames : List String
  pub agent_ids : List String

pub record Targets : Type 0 where
  pub match_ : TargetMatch
  pub exclude : TargetExclude

pub record PolicyRules : Type 0 where
  pub inbound : List Rule
  pub outbound : List Rule

pub record FilePatterns : Type 0 where
  pub include : List String
  pub exclude : List String

pub record MonitoredPath : Type 0 where
  pub path : String
  pub recursive : Bool
  pub events : List String
  pub file_patterns : FilePatterns

pub record Policy : Type 0 where
  pub api_version : String
  pub kind : String
  pub metadata : Metadata
  pub targets : Targets
  pub priority : ℤ  -- i32
  pub rules : PolicyRules
  pub monitored_paths : List MonitoredPath
  pub classifiers : List String

-- The messages of `PolicyError::Validation`, with the values that they quote.
pub data Complaint : Type 0 where
  unsupported_api_version unsupported_kind : String → Complaint
  empty_name : Complaint
  bad_name : String → Complaint
  duplicate_rule_id : (id name : String) → Complaint
  empty_rule_id : Complaint
  bad_rule_id : String → Complaint

-- The field whose pattern does not compile.
pub data RegexField : Type 0 where
  filename_regex path_regex : (rule : String) → RegexField

pub data PolicyError : Type 0 where
  yaml msgpack : PolicyError
  validation : Complaint → PolicyError
  regex_compile : RegexField → PolicyError
