-- ===== src/Classifier/Pesel/Scan.antt =====
-- classifier/pesel.rs, `scan` and `redact`: what is reported, and what the report gives away.
use mathlib.Core.List.{filter_map}
use scrooge_dlp.Common.{
  Option, true, some, none, List, ◌++◌, ◌≡◌, arith, ◌==◌, ◌-◌, ◌&&◌, if◌then◌else◌, length, drop,
  all, All, All-map,
}
use scrooge_dlp.Common.Text.{
  Text, IsText, codes, byte_len, as_bytes, is_ascii_digit, digits_of_bytes, digits-ascii,
  byte_len-ascii, last4-ascii, last4,
}
use scrooge_dlp.Classifier.Defs.{Match, RegexMatch, scan_loop_total}
use scrooge_dlp.Classifier.Pesel.{PeselClassifier, name, redact, report, scan_body, scan}
use scrooge_dlp.Classifier.Pesel.Check.{is_pesel, pesel_check-eq-is_pesel}

-- The last four characters.
abbrev tail4 : Text → Text
tail4 s = drop (length s - 4) s

-- What a match of the pattern ought to report.
unfoldable pub reported : RegexMatch → Option Match
reported m =
    if byte_len m.as_str == 11 && is_pesel (as_bytes m.as_str)
    then some (record {
      classifier = name;
      start = m.start;
      end = m.end;
      redacted = codes "*******" ++ tail4 m.as_str;
      last4 = tail4 m.as_str;
    })
    else none

redact_of_last4 : (d t : Text) → last4 d ≡ some t → redact d ≡ some (codes "*******" ++ t)
unfolding redact
redact_of_last4 d t e = rw (e, redact)

report_of_last4 :
    (m : RegexMatch) (d t : Text)
    → last4 d ≡ some t
    → report m d
      ≡ some (
          some (record {
            classifier = name;
            start = m.start;
            end = m.end;
            redacted = codes "*******" ++ t;
            last4 = t;
          }))
unfolding report
report_of_last4 m d t e = rw (redact_of_last4 d t e, e, report)

last4-pesel : (t : Text) → byte_len t ≡ 11 → is_pesel (as_bytes t) ≡ true → last4 t ≡ some (tail4 t)
unfolding is_pesel
last4-pesel t l h =
    let digits : all is_ascii_digit (as_bytes t) ≡ true = ground arith in
    let ascii = digits-ascii t (digits_of_bytes t digits) in
    last4-ascii t ascii (omega (arith, byte_len-ascii t ascii))

scan_body-eq-reported : (m : RegexMatch) → IsText m.as_str → scan_body m ≡ some (reported m)
unfolding scan_body reported
scan_body-eq-reported m h = ground (
  arith,
  pesel_check-eq-is_pesel m.as_str h,
  last4-pesel m.as_str,
  report_of_last4 m m.as_str (tail4 m.as_str),
)

-- What the regex crate gives: every match is a text of Unicode characters.
abbrev pub AreTexts : List RegexMatch → Type 0
AreTexts = All (λ m. IsText m.as_str)

-- On matches that are texts the scan for national numbers never panics, and reports, in their
-- order, exactly those of eleven digits with a right check digit, each with its last four digits.
pub scan-eq-reported :
    (c : PeselClassifier) (text : Text)
    → AreTexts (c.re text)
    → scan c text ≡ some (filter_map reported (c.re text))
unfolding scan
scan-eq-reported c text h = scan_loop_total scan_body reported (c.re text) (
    All-map (λ m. IsText m.as_str) (λ m. scan_body m ≡ some (reported m)) scan_body-eq-reported
      (c.re text) h)
