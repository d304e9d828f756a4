-- ===== src/Classifier/Iban.antt =====
-- classifier/iban.rs: bank account numbers of ISO 13616, with the mod-97 check.
pub mod Check
pub mod Scan
pub mod Panic
pub mod Errors
use scrooge_dlp.Common.{
  ℕ, String, Bool, true, false, Option, none, some, List, [], ◌∷◌, ◌++◌, ◌+◌, ◌-◌, ◌*◌, ◌%◌, ◌^◌,
  ◌==◌, leb, ltb, ◌&&◌, ◌||◌, not, if◌then◌else◌, filter,
}
use scrooge_dlp.Common.Text.{
  is_whitespace, Text, codes, byte_len, split_at, is_ascii_digit, is_ascii_uppercase, last4,
  slice_to,
}
use scrooge_dlp.Classifier.Defs.{Match, RegexMatch, Regex, Body, scan_loop}

abbrev pub name : String
name = "iban"

abbrev pub iban_regex : String
iban_regex = "\\b[A-Z]{2}\\d{2}(?:[ ]?[A-Z0-9]){11,30}\\b"

pub record IbanClassifier : Type 0 where
  pub re : Regex

-- `IbanClassifier::new`; `none` is the panic of `expect`.
unfoldable pub new : (String → Option Regex) → Option IbanClassifier
new regex_new = elim (regex_new iban_regex) [ none ↦ none | some re ↦ some (record { re = re }) ]

-- `u64` arithmetic of a release build wraps.
abbrev pub u64 : ℕ → ℕ
u64 n = n % 2 ^ 64

-- One character of the loop: `none` is `return false` at an unexpected one.
unfoldable pub char_value : ℕ → Option ℕ
char_value c =
    if is_ascii_digit c
    then some (c - 48)
    else if is_ascii_uppercase c
    then some (c - 65 + 10)
    else none

unfoldable pub next_remainder : ℕ → ℕ → ℕ
next_remainder r val = if ltb val 10 then u64 (r * 10 + val) % 97 else u64 (r * 100 + val) % 97

-- The loop over the rearranged text, and the test behind it.
unfoldable pub mod97_loop : ℕ → Text → Bool
mod97_loop r [] = r == 1
mod97_loop r (c ∷ cs) = elim (char_value c) [
  | none ↦ false
  | some val ↦ mod97_loop (next_remainder r val) cs
]

-- `none` is the panic of `split_at`.
unfoldable pub iban_check : Text → Option Bool
iban_check iban = elim (split_at 4 iban) [
  | none ↦ none
  | some (head, tail) ↦ some (mod97_loop 0 (tail ++ head))
]

abbrev pub join_parts : Option Text → Option Text → Option Text
join_parts (some tail) (some country) = some (country ++ codes "**..." ++ tail)
join_parts (some tail) none = none
join_parts none country = none

unfoldable pub redact : Text → Option Text
redact iban = join_parts (last4 iban) (slice_to 2 iban)

-- `out.push(Match { .. })`, with its slices.
unfoldable pub report : RegexMatch → Text → Option (Option Match)
report m stripped = elim (redact stripped) [
  | none ↦ none
  | some r ↦ elim (last4 stripped) [
    | none ↦ none
    | some t ↦
        some (
          some
            (record { classifier = name; start = m.start; end = m.end; redacted = r; last4 = t }))
  ]
]

abbrev pub report_if : Option Bool → RegexMatch → Text → Option (Option Match)
report_if none m stripped = none
report_if (some true) m stripped = report m stripped
report_if (some false) m stripped = some none

abbrev pub stripped_of : RegexMatch → Text
stripped_of m = filter (λ c. not (is_whitespace c)) m.as_str

unfoldable pub scan_body : Body
scan_body m =
    let stripped = stripped_of m in
    if leb 15 (byte_len stripped) && leb (byte_len stripped) 34
    then report_if (iban_check stripped) m stripped
    else some none

-- `IbanClassifier::scan`
unfoldable pub scan : IbanClassifier → Text → Option (List Match)
scan c text = scan_loop scan_body (c.re text)
