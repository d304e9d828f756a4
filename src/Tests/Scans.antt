-- ===== src/Tests/Scans.antt =====
-- The scans of the classifiers, with patterns that match the whole text, or a part that is given.
use mathlib.Core.List.{filter_map}
use scrooge_dlp.Common.{ℕ, some, [], ◌∷◌, ◌++◌, ◌≡◌, refl, arith}
use scrooge_dlp.Common.Text.{Text, codes}
use scrooge_dlp.Classifier.Defs.{RegexMatch, Regex, scan_loop}
use scrooge_dlp.Classifier.Luhn
use scrooge_dlp.Classifier.Pesel
use scrooge_dlp.Classifier.Nip
use scrooge_dlp.Classifier.Iban
use scrooge_dlp.Classifier.Registry.{scan_all}
use scrooge_dlp.Classifier.Registry.Defaults.{defaults, scan_all-defaults}

abbrev never : Regex
never text = []

-- The one match at bytes `start` to `end`.
abbrev only : ℕ → ℕ → Text → Regex
only s e found text = record { start = s; end = e; as_str = found } ∷ []

scan-card :
    Luhn.scan
      (record { re = only 6 25 (codes "4532-0151-1283-0366") })
      (codes "karta 4532-0151-1283-0366 wystawiona")
    ≡ some (
        record {
          classifier = "credit_card";
          start = 6;
          end = 25;
          redacted = codes "**** **** **** 0366";
          last4 = codes "0366";
        }
        ∷ [])
unfolding Luhn.scan Luhn.scan_body Luhn.luhn_check Luhn.report Luhn.redact scan_loop
scan-card = refl

abbrev iban : Text
iban = codes "DE89370400440532013000"

abbrev pesel : Text
pesel = codes "44051401359"

scan_all-defaults_example :
    scan_all (defaults never (only 0 11 pesel) (only 12 34 iban) never) (pesel ++ 32 ∷ iban)
    ≡ some (
        filter_map Luhn.Scan.reported (never (pesel ++ 32 ∷ iban))
        ++ (filter_map Pesel.Scan.reported (only 0 11 pesel (pesel ++ 32 ∷ iban))
            ++ (filter_map Iban.Scan.reported (only 12 34 iban (pesel ++ 32 ∷ iban))
                ++ filter_map Nip.Scan.reported (never (pesel ++ 32 ∷ iban)))))
scan_all-defaults_example =
    scan_all-defaults never (only 0 11 pesel) (only 12 34 iban) never (pesel ++ 32 ∷ iban)
      (omega arith) (refl, tt)

-- Two capital letters, two Devanagari digits of three bytes each, eleven ASCII digits.
abbrev wide : Text
wide = 80 ∷ 76 ∷ 0x0967 ∷ 0x0968 ∷ codes "10901014000"

abbrev wide_match : RegexMatch
wide_match = record { start = 0; end = 19; as_str = wide }
