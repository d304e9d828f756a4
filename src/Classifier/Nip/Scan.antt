-- ===== src/Classifier/Nip/Scan.antt =====
-- classifier/nip.rs, `scan` and `redact`: what is reported, and what the report gives away.
use mathlib.Core.List.{filter_map}
use scrooge_dlp.Common.{
  Bool, Option, true, some, none, ◌++◌, ◌≡◌, arith, ◌==◌, ◌&&◌, if◌then◌else◌, length, take, drop,
  all, All-pointwise, all-filter, all-drop, length-drop,
}
use scrooge_dlp.Common.Text.{
  Text, codes, is_ascii, is_ascii_digit, digits-ascii, byte_len-ascii, last4-ascii, last4,
  slice_from-ascii, slice_to-ascii,
}
use scrooge_dlp.Classifier.Defs.{Match, RegexMatch, scan_loop_total}
use scrooge_dlp.Classifier.Nip.{NipClassifier, name, redact, report, digits_of, scan_body, scan}
use scrooge_dlp.Classifier.Nip.Check.{full_weights, nip_check-digits}
use scrooge_dlp.Classifier.Weights.{dot}
use Prim.Native.Nat.{◌%◌}

-- Ten digits whose weighted sum is a multiple of 11.
abbrev is_nip_digits : Text → Bool
is_nip_digits d = length d == 10 && dot full_weights d % 11 == 0

abbrev masked : Text → Text
masked d = codes "***-***-" ++ take 2 (drop 6 d) ++ codes "-" ++ drop 2 (drop 6 d)

-- What a match of the pattern ought to report.
unfoldable pub reported : RegexMatch → Option Match
reported m =
    if is_nip_digits (digits_of m)
    then some (record {
      classifier = name;
      start = m.start;
      end = m.end;
      redacted = masked (digits_of m);
      last4 = drop 6 (digits_of m);
    })
    else none

redact-ascii : (d : Text) → all is_ascii d ≡ true → length d ≡ 10 → redact d ≡ some (masked d)
unfolding redact
redact-ascii d h l =
    let tail = all-drop is_ascii 6 d h in
    let long = length-drop {0} 6 d in
    ground (
      arith,
      slice_from-ascii 6 d h,
      slice_to-ascii 2 (drop 6 d) tail,
      slice_from-ascii 2 (drop 6 d) tail,
    )

report-ascii :
    (m : RegexMatch) (d : Text)
    → all is_ascii d ≡ true
    → length d ≡ 10
    → report m d
      ≡ some (
          some (record {
            classifier = name;
            start = m.start;
            end = m.end;
            redacted = masked d;
            last4 = drop 6 d;
          }))
unfolding report
report-ascii m d h l =
    let tail : last4 d ≡ some (drop 6 d) = rw (last4-ascii d h (omega arith), l) in
    rw (redact-ascii d h l, tail, report)

scan_body-eq-reported : (m : RegexMatch) → scan_body m ≡ some (reported m)
unfolding scan_body reported
scan_body-eq-reported m =
    let digits = all-filter is_ascii_digit m.as_str in
    let ascii = digits-ascii (digits_of m) digits in
    ground (
      arith,
      byte_len-ascii (digits_of m) ascii,
      nip_check-digits (digits_of m) digits,
      report-ascii m (digits_of m) ascii,
    )

-- The scan for tax numbers never panics, and reports of the matches of the pattern, in their
-- order, exactly those with ten digits that pass the check, each with its last four digits.
pub scan-eq-reported :
    (c : NipClassifier) (text : Text) → scan c text ≡ some (filter_map reported (c.re text))
unfolding scan
scan-eq-reported c text =
    scan_loop_total scan_body reported (c.re text)
      (All-pointwise (λ m. scan_body m ≡ some (reported m)) scan_body-eq-reported (c.re text))
