-- ===== src/Policy/Validate.antt =====
-- crates/scrooge-policy: `Rule::validate` (rules.rs) and `Policy::validate` (lib.rs). Whether the
-- regex crate compiles a pattern is the parameter `compiles`.
pub mod Laws
use scrooge_dlp.Common.{
  String, Bool, true, false, Option, none, some, List, [], ◌∷◌, ◌++◌, ◌==◌, ◌&&◌, ◌||◌, not,
  if◌then◌else◌, Outcome, ok, err, err_if, ◌>>=◌, ◌>>◌, is_empty, all, any, str_eq,
}
use scrooge_dlp.Common.Text.{codes, is_ascii_digit, is_ascii_lowercase}
use scrooge_dlp.Policy.Defs.{
  Conditions, Rule, Policy, Complaint, empty_name, bad_name, duplicate_rule_id, empty_rule_id,
  bad_rule_id, unsupported_api_version, unsupported_kind, PolicyError, validation, regex_compile,
  RegexField,
}
use Prim.Native.Nat.{ℕ}

-- `c.is_ascii_lowercase() || c.is_ascii_digit() || c == '-'`
abbrev pub is_slug_char : ℕ → Bool
is_slug_char c = is_ascii_lowercase c || is_ascii_digit c || c == 45

unfoldable pub is_slug : String → Bool
is_slug s = all is_slug_char (codes s)

module _ (compiles : String → Bool) where
  -- `if let Some(re) = .. { Regex::new(re)?; }`
  abbrev pub check_regex : Option String → RegexField → Outcome PolicyError (Unit {0})
  check_regex none field = ok tt
  check_regex (some re) field = err_if (not (compiles re)) (regex_compile field)

  abbrev pub check_conditions : Option Conditions → String → Outcome PolicyError (Unit {0})
  check_conditions none id = ok tt
  check_conditions (some c) id = do
    check_regex c.filename_regex (RegexField.filename_regex id)
    check_regex c.path_regex (RegexField.path_regex id)

  -- `Rule::validate`
  unfoldable pub validate_rule : Rule → Outcome PolicyError (Unit {0})
  validate_rule r = do
    err_if (is_empty (codes r.id)) (validation empty_rule_id)
    err_if (not (is_slug r.id)) (validation (bad_rule_id r.id))
    check_conditions r.conditions r.id

  -- The loop over the rules: `seen` is the set `rule_ids`, and `name` the policy's.
  unfoldable pub validate_rules : String → List String → List Rule → Outcome PolicyError (Unit {0})
  validate_rules name seen [] = ok tt
  validate_rules name seen (r ∷ rs) = do
    err_if (any (str_eq r.id) seen) (validation (duplicate_rule_id r.id name))
    validate_rule r
    validate_rules name (r.id ∷ seen) rs

  -- `Policy::validate`
  unfoldable pub validate : Policy → Outcome PolicyError (Unit {0})
  validate p = do
    err_if (not (str_eq p.api_version "scroogedlp.io/v1"))
        (validation (unsupported_api_version p.api_version))
    err_if (not (str_eq p.kind "Policy")) (validation (unsupported_kind p.kind))
    err_if (is_empty (codes p.metadata.name)) (validation empty_name)
    err_if (not (is_slug p.metadata.name)) (validation (bad_name p.metadata.name))
    validate_rules p.metadata.name [] (p.rules.inbound ++ p.rules.outbound)
