-- ===== src/Classifier/Iban/Scan.antt =====
-- classifier/iban.rs, `scan` and `redact` on ASCII matches: what is reported.
use mathlib.Core.List.{filter_map}
use scrooge_dlp.Common.{
  Bool, Option, true, some, none, List, [], ◌∷◌, ◌++◌, ◌≡◌, arith, leb, ◌-◌, ◌&&◌, ◌≤◌, not,
  if◌then◌else◌, length, take, drop, all, All, All-map, filter,
}
use scrooge_dlp.Common.Text.{
  is_whitespace, Text, codes, is_ascii, byte_len-ascii, last4-ascii, last4, slice_to-ascii,
}
use scrooge_dlp.Classifier.Defs.{Match, RegexMatch, scan_loop_total}
use scrooge_dlp.Classifier.Iban.{IbanClassifier, name, redact, report, stripped_of, scan_body, scan}
use scrooge_dlp.Classifier.Iban.Check.{is_iban, iban_check-eq-is_iban}

abbrev tail4 : Text → Text
tail4 s = drop (length s - 4) s

abbrev masked : Text → Text
masked s = take 2 s ++ codes "**..." ++ tail4 s

-- What a match of the pattern ought to report.
unfoldable pub reported : RegexMatch → Option Match
reported m =
    if leb 15 (length (stripped_of m)) && leb (length (stripped_of m)) 34 && is_iban (stripped_of m)
    then some (record {
      classifier = name;
      start = m.start;
      end = m.end;
      redacted = masked (stripped_of m);
      last4 = tail4 (stripped_of m);
    })
    else none

report-ascii :
    (m : RegexMatch) (s : Text)
    → all is_ascii s ≡ true
    → 15 ≤ length s
    → report m s
      ≡ some (
          some (record {
            classifier = name;
            start = m.start;
            end = m.end;
            redacted = masked s;
            last4 = tail4 s;
          }))
unfolding report redact
report-ascii m s h l =
    let tail : last4 s ≡ some (tail4 s) = last4-ascii s h (omega arith) in
    let front = slice_to-ascii 2 s h (omega arith) in ground arith

all-filter_of {ℓ} :
    {A : Type ℓ} (f p : A → Bool) (xs : List A) → all f xs ≡ true → all f (filter p xs) ≡ true
all-filter_of f p [] h = h
all-filter_of f p (x ∷ xs) h = ground (arith, all-filter_of f p xs)

scan_body-eq-reported :
    (m : RegexMatch) → all is_ascii m.as_str ≡ true → scan_body m ≡ some (reported m)
unfolding scan_body reported
scan_body-eq-reported m h =
    let ascii = all-filter_of is_ascii (λ c. not (is_whitespace c)) m.as_str h in
    ground (
      arith,
      byte_len-ascii (stripped_of m) ascii,
      iban_check-eq-is_iban (stripped_of m) ascii,
      report-ascii m (stripped_of m) ascii,
    )

abbrev pub AreAscii : List RegexMatch → Type 0
AreAscii = All (λ m. all is_ascii m.as_str ≡ true)

-- Where all matches of the pattern are ASCII the scan for account numbers does not panic, and
-- reports, in their order, exactly those of 15 to 34 characters (spaces left out) that pass the
-- mod-97 rule, each with its country and its last four characters.
pub scan-eq-reported :
    (c : IbanClassifier) (text : Text)
    → AreAscii (c.re text)
    → scan c text ≡ some (filter_map reported (c.re text))
unfolding scan
scan-eq-reported c text h = scan_loop_total scan_body reported (c.re text) (
    All-map (λ m. all is_ascii m.as_str ≡ true) (λ m. scan_body m ≡ some (reported m))
      scan_body-eq-reported (c.re text) h)
