-- ===== src/Classifier/Registry/Defaults.antt =====
-- classifier/mod.rs, `with_defaults` and `scan_all`: the agent's scan as a whole.
use mathlib.Core.List.{filter_map, append-nil}
use scrooge_dlp.Common.{String, Option, some, List, [], ◌∷◌, ◌++◌, ◌≡◌, arith}
use scrooge_dlp.Common.Text.{Text}
use scrooge_dlp.Classifier.Defs.{Match, Regex}
use scrooge_dlp.Classifier.Luhn
use scrooge_dlp.Classifier.Pesel
use scrooge_dlp.Classifier.Iban
use scrooge_dlp.Classifier.Nip
use scrooge_dlp.Classifier.Registry.{
  Classifier, ClassifierRegistry, luhn_classifier, pesel_classifier, iban_classifier,
  nip_classifier, with_defaults, scan_items, scan_all,
}

-- The registry of the four default classifiers, in the order in which they are registered.
unfoldable pub defaults : Regex → Regex → Regex → Regex → ClassifierRegistry
defaults luhn pesel iban nip = record {
  items =
      luhn_classifier (record { re = luhn })
      ∷ pesel_classifier (record { re = pesel })
      ∷ iban_classifier (record { re = iban })
      ∷ nip_classifier (record { re = nip })
      ∷ [];
}

module _ (regex_new : String → Option Regex) (luhn pesel iban nip : Regex)
    (luhn_compiles : regex_new Luhn.card_regex ≡ some luhn)
    (pesel_compiles : regex_new Pesel.pesel_regex ≡ some pesel)
    (iban_compiles : regex_new Iban.iban_regex ≡ some iban)
    (nip_compiles : regex_new Nip.nip_regex ≡ some nip) where
  pub with_defaults_lem : with_defaults regex_new ≡ some (defaults luhn pesel iban nip)
  unfolding with_defaults defaults
  with_defaults_lem = ground arith

scan_four :
    (a b c d : Classifier) (text : Text) {w x y z : List Match}
    → a.scan text ≡ some w
    → b.scan text ≡ some x
    → c.scan text ≡ some y
    → d.scan text ≡ some z
    → scan_items (a ∷ b ∷ c ∷ d ∷ []) text ≡ some (w ++ (x ++ (y ++ z)))
unfolding scan_items
scan_four a b c d text {z = z} ea eb ec ed = rw (ea, eb, ec, ed, append-nil z)

-- Where the matches of the pattern for national numbers are texts and those of the pattern for
-- account numbers are ASCII, the default registry scans every text to the end: it reports the card
-- numbers, then the national numbers, the account numbers and the tax numbers.
pub scan_all-defaults :
    (luhn pesel iban nip : Regex) (text : Text)
    → Pesel.Scan.AreTexts (pesel text)
    → Iban.Scan.AreAscii (iban text)
    → scan_all (defaults luhn pesel iban nip) text
      ≡ some (
          filter_map Luhn.Scan.reported (luhn text)
          ++ (filter_map Pesel.Scan.reported (pesel text)
              ++ (filter_map Iban.Scan.reported (iban text)
                  ++ filter_map Nip.Scan.reported (nip text))))
unfolding scan_all defaults
scan_all-defaults luhn pesel iban nip text hp hi =
    scan_four (luhn_classifier (record { re = luhn })) (pesel_classifier (record { re = pesel }))
      (iban_classifier (record { re = iban })) (nip_classifier (record { re = nip })) text
      (Luhn.Scan.scan-eq-reported (record { re = luhn }) text)
      (Pesel.Scan.scan-eq-reported (record { re = pesel }) text hp)
      (Iban.Scan.scan-eq-reported (record { re = iban }) text hi)
      (Nip.Scan.scan-eq-reported (record { re = nip }) text)
