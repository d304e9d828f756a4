-- ===== src/Classifier/Luhn/Scan.antt =====
-- classifier/luhn.rs, `scan` and `redact`: what is reported, and what the report gives away.
use mathlib.Core.List.{filter_map}
use scrooge_dlp.Common.{
  Bool, Option, some, none, ◌++◌, ◌≡◌, arith, ◌-◌, leb, ◌&&◌, ◌≤◌, if◌then◌else◌, length, drop,
  all-filter, All-pointwise,
}
use scrooge_dlp.Common.Text.{
  Text, codes, byte_len, is_ascii_digit, digits-ascii, byte_len-ascii, last4-ascii, last4,
}
use scrooge_dlp.Classifier.Defs.{Match, RegexMatch, scan_loop_total}
use scrooge_dlp.Classifier.Luhn.{
  LuhnClassifier, name, luhn_check, redact, report, digits_of, scan_body, scan,
}

-- The last four digits.
abbrev tail4 : Text → Text
tail4 digits = drop (length digits - 4) digits

abbrev is_card : Text → Bool
is_card digits = leb 13 (length digits) && leb (length digits) 19 && luhn_check digits

-- What a match of the pattern ought to report.
unfoldable pub reported : RegexMatch → Option Match
reported m =
    if is_card (digits_of m)
    then some (record {
      classifier = name;
      start = m.start;
      end = m.end;
      redacted = codes "**** **** **** " ++ tail4 (digits_of m);
      last4 = tail4 (digits_of m);
    })
    else none

last4-digits :
    (m : RegexMatch) → 4 ≤ length (digits_of m) → last4 (digits_of m) ≡ some (tail4 (digits_of m))
last4-digits m =
    last4-ascii (digits_of m) (digits-ascii (digits_of m) (all-filter is_ascii_digit m.as_str))

byte_len-digits : (m : RegexMatch) → byte_len (digits_of m) ≡ length (digits_of m)
byte_len-digits m =
    byte_len-ascii _ (digits-ascii (digits_of m) (all-filter is_ascii_digit m.as_str))

redact_of_last4 : (d t : Text) → last4 d ≡ some t → redact d ≡ some (codes "**** **** **** " ++ t)
unfolding redact
redact_of_last4 d t e = rw (e, redact)

report_of_last4 :
    (m : RegexMatch) (d t : Text)
    → last4 d ≡ some t
    → report m d
      ≡ some (
          some (record {
            classifier = name;
            start = m.start;
            end = m.end;
            redacted = codes "**** **** **** " ++ t;
            last4 = t;
          }))
unfolding report
report_of_last4 m d t e = rw (redact_of_last4 d t e, e, report)

scan_body-eq-reported : (m : RegexMatch) → scan_body m ≡ some (reported m)
unfolding scan_body reported
scan_body-eq-reported m = ground (
  arith,
  byte_len-digits m,
  last4-digits m,
  report_of_last4 m (digits_of m) (tail4 (digits_of m)),
)

-- The card scan never panics, and reports of the matches of the pattern, in their order, exactly
-- those with 13 to 19 digits that pass the check, each with its last four digits.
pub scan-eq-reported :
    (c : LuhnClassifier) (text : Text) → scan c text ≡ some (filter_map reported (c.re text))
unfolding scan
scan-eq-reported c text =
    scan_loop_total scan_body reported (c.re text)
      (All-pointwise (λ m. scan_body m ≡ some (reported m)) scan_body-eq-reported (c.re text))
