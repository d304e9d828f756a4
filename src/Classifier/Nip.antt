-- ===== src/Classifier/Nip.antt =====
-- classifier/nip.rs: the Polish tax number, ten digits with a mod-11 checksum.
pub mod Check
pub mod Scan
use scrooge_dlp.Common.{
  ℕ, String, Bool, true, false, Option, none, some, List, [], ◌∷◌, ◌++◌, ◌%◌, ◌==◌, if◌then◌else◌,
  get_elem?, filter,
}
use scrooge_dlp.Common.Text.{
  Text, codes, byte_len, as_bytes, is_ascii_digit, last4, slice_from, slice_to,
}
use scrooge_dlp.Classifier.Defs.{Match, RegexMatch, Regex, Body, scan_loop}
use scrooge_dlp.Classifier.Weights.{Weighed, out_of_bounds, not_digit, total, sub_u8, weigh}

abbrev pub name : String
name = "polish_nip"

abbrev pub nip_regex : String
nip_regex = "\\b\\d{3}[ -]?\\d{3}[ -]?\\d{2}[ -]?\\d{2}\\b"

abbrev pub weights : List ℕ
weights = 6 ∷ 5 ∷ 7 ∷ 2 ∷ 3 ∷ 4 ∷ 5 ∷ 6 ∷ 7 ∷ []

pub record NipClassifier : Type 0 where
  pub re : Regex

-- `NipClassifier::new`; `none` is the panic of `expect`.
unfoldable pub new : (String → Option Regex) → Option NipClassifier
new regex_new = elim (regex_new nip_regex) [ none ↦ none | some re ↦ some (record { re = re }) ]

-- What follows the loop: `last` is `bytes[9]`, and `none` a panic.
abbrev pub finish : Weighed → Option ℕ → Option Bool
finish (total sum) (some last) = some (if sum % 11 == 10 then false else sum % 11 == sub_u8 last 48)
finish (total sum) none = if sum % 11 == 10 then some false else none
finish not_digit last = some false
finish out_of_bounds last = none

unfoldable pub nip_check : Text → Option Bool
nip_check digits =
    let bytes = as_bytes digits in
    if byte_len digits == 10 then finish (weigh weights bytes 0) (get_elem? bytes 9) else some false

abbrev join_groups : Option Text → Option Text → Option Text
join_groups (some a) (some b) = some (codes "***-***-" ++ a ++ codes "-" ++ b)
join_groups _ _ = none

-- `&digits[6..]`, cut once more in the middle.
unfoldable pub redact : Text → Option Text
redact digits = elim (slice_from 6 digits) [
  | none ↦ none
  | some t ↦ join_groups (slice_to 2 t) (slice_from 2 t)
]

abbrev pub digits_of : RegexMatch → Text
digits_of m = filter is_ascii_digit m.as_str

-- `out.push(Match { .. })`, with its slices.
unfoldable pub report : RegexMatch → Text → Option (Option Match)
report m digits = elim (redact digits) [
  | none ↦ none
  | some r ↦ elim (last4 digits) [
    | none ↦ none
    | some t ↦
        some (
          some
            (record { classifier = name; start = m.start; end = m.end; redacted = r; last4 = t }))
  ]
]

abbrev pub report_if : Option Bool → RegexMatch → Text → Option (Option Match)
report_if none m digits = none
report_if (some true) m digits = report m digits
report_if (some false) m digits = some none

unfoldable pub scan_body : Body
scan_body m =
    let digits = digits_of m in
    if byte_len digits == 10 then report_if (nip_check digits) m digits else some none

-- `NipClassifier::scan`
unfoldable pub scan : NipClassifier → Text → Option (List Match)
scan c text = scan_loop scan_body (c.re text)
