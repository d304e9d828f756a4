-- ===== src/Classifier/Luhn.antt =====
-- classifier/luhn.rs: payment card numbers, by a pattern and the mod-10 checksum.
pub mod Sum
pub mod Errors
pub mod Scan
use scrooge_dlp.Common.{
  ℕ, String, Bool, Option, none, some, List, [], ◌∷◌, ◌++◌, ◌&&◌, leb, ltb, ◌==◌, if◌then◌else◌,
  ◌+◌, ◌*◌, ◌-◌, ◌%◌, filter,
}
use scrooge_dlp.Common.Text.{Text, codes, byte_len, is_ascii_digit, digit_value, last4}
use scrooge_dlp.Classifier.Defs.{Match, RegexMatch, Regex, u32, Body, scan_loop}
use mathlib.Core.List.{reverse}

abbrev pub name : String
name = "credit_card"

abbrev pub card_regex : String
card_regex = "\\b(?:\\d[ -]?){12,18}\\d\\b"

-- `LuhnClassifier`, with its compiled pattern.
pub record LuhnClassifier : Type 0 where
  pub re : Regex

-- `LuhnClassifier::new`; `none` is the panic of `expect`.
unfoldable pub new : (String → Option Regex) → Option LuhnClassifier
new regex_new = elim (regex_new card_regex) [ none ↦ none | some re ↦ some (record { re = re }) ]

-- The value that the digit `d` at place `i` from the end adds.
abbrev pub luhn_value : ℕ → ℕ → ℕ
luhn_value i d = if i % 2 == 1 then (if ltb 9 (d * 2) then d * 2 - 9 else d * 2) else d

luhn_loop : ℕ → ℕ → Text → ℕ
luhn_loop i sum [] = sum
luhn_loop i sum (c ∷ cs) = luhn_loop (i + 1) (u32 (sum + luhn_value i (digit_value c))) cs

unfoldable pub luhn_check : Text → Bool
unfolding luhn_loop
luhn_check digits = luhn_loop 0 0 (reverse digits) % 10 == 0

-- `none` is a panic of the slice.
unfoldable pub redact : Text → Option Text
redact digits = elim (last4 digits) [ none ↦ none | some t ↦ some (codes "**** **** **** " ++ t) ]

-- The digits of the matched text.
abbrev pub digits_of : RegexMatch → Text
digits_of m = filter is_ascii_digit m.as_str

-- `out.push(Match { .. })`, with its two slices.
unfoldable pub report : RegexMatch → Text → Option (Option Match)
report m digits = elim (redact digits) [
  | none ↦ none
  | some r ↦ elim (last4 digits) [
    | none ↦ none
    | some t ↦
        some (
          some
            (record { classifier = name; start = m.start; end = m.end; redacted = r; last4 = t }))
  ]
]

unfoldable pub scan_body : Body
scan_body m =
    let digits = digits_of m in
    if leb 13 (byte_len digits) && leb (byte_len digits) 19
    then (if luhn_check digits then report m digits else some none)
    else some none

-- `LuhnClassifier::scan`
unfoldable pub scan : LuhnClassifier → Text → Option (List Match)
scan c text = scan_loop scan_body (c.re text)
