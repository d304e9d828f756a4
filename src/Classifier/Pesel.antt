-- ===== src/Classifier/Pesel.antt =====
-- classifier/pesel.rs: the Polish national number, eleven digits with a mod-10 checksum.
pub mod Check
pub mod Scan
use scrooge_dlp.Common.{
  ℕ, String, Bool, true, false, Option, none, some, List, [], ◌∷◌, ◌++◌, ◌-◌, ◌%◌, ◌==◌,
  if◌then◌else◌, get_elem?,
}
use scrooge_dlp.Common.Text.{Text, codes, byte_len, as_bytes, last4}
use scrooge_dlp.Classifier.Defs.{Match, RegexMatch, Regex, Body, scan_loop}
use scrooge_dlp.Classifier.Weights.{Weighed, out_of_bounds, not_digit, total, sub_u8, weigh}

abbrev pub name : String
name = "polish_pesel"

abbrev pub pesel_regex : String
pesel_regex = "\\b\\d{11}\\b"

abbrev pub weights : List ℕ
weights = 1 ∷ 3 ∷ 7 ∷ 9 ∷ 1 ∷ 3 ∷ 7 ∷ 9 ∷ 1 ∷ 3 ∷ []

pub record PeselClassifier : Type 0 where
  pub re : Regex

-- `PeselClassifier::new`; `none` is the panic of `expect`.
unfoldable pub new : (String → Option Regex) → Option PeselClassifier
new regex_new = elim (regex_new pesel_regex) [ none ↦ none | some re ↦ some (record { re = re }) ]

-- What follows the loop: `last` is `bytes[10]`, and `none` a panic.
abbrev pub finish : Weighed → Option ℕ → Option Bool
finish (total sum) (some last) = some ((10 - sum % 10) % 10 == sub_u8 last 48)
finish (total sum) none = none
finish not_digit last = some false
finish out_of_bounds last = none

unfoldable pub pesel_check : Text → Option Bool
pesel_check digits =
    let bytes = as_bytes digits in
    if byte_len digits == 11
    then finish (weigh weights bytes 0) (get_elem? bytes 10)
    else some false

-- `format!("*******{}", &digits[digits.len() - 4..])`
unfoldable pub redact : Text → Option Text
redact digits = elim (last4 digits) [ none ↦ none | some t ↦ some (codes "*******" ++ t) ]

-- `out.push(Match { .. })`, with its two slices.
unfoldable pub report : RegexMatch → Text → Option (Option Match)
report m s = elim (redact s) [
  | none ↦ none
  | some r ↦ elim (last4 s) [
    | none ↦ none
    | some t ↦
        some (
          some
            (record { classifier = name; start = m.start; end = m.end; redacted = r; last4 = t }))
  ]
]

unfoldable pub scan_body : Body
scan_body m = elim (pesel_check m.as_str) [
  | none ↦ none
  | some true ↦ report m m.as_str
  | some false ↦ some none
]

-- `PeselClassifier::scan`
unfoldable pub scan : PeselClassifier → Text → Option (List Match)
scan c text = scan_loop scan_body (c.re text)
