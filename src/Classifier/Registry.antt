-- ===== src/Classifier/Registry.antt =====
-- classifier/mod.rs: the trait `Classifier` and the registry that runs every classifier on a text.
pub mod Defaults
use scrooge_dlp.Common.{
  ℕ, String, Bool, true, false, Option, none, some, List, [], ◌∷◌, ◌++◌, ◌≡◌, refl, arith, length,
  is_empty, map,
}
use scrooge_dlp.Common.Text.{Text}
use scrooge_dlp.Classifier.Defs.{Match, Regex}
use scrooge_dlp.Classifier.Luhn
use scrooge_dlp.Classifier.Pesel
use scrooge_dlp.Classifier.Iban
use scrooge_dlp.Classifier.Nip

-- `dyn Classifier`; a scan that panics is `none`.
pub record Classifier : Type 0 where
  pub name : String
  pub scan : Text → Option (List Match)

pub record ClassifierRegistry : Type 0 where
  pub items : List Classifier

unfoldable pub new : ClassifierRegistry
new = record { items = [] }

unfoldable pub register : Classifier → ClassifierRegistry → ClassifierRegistry
register c r = record r { items = r.items ++ c ∷ [] }

abbrev luhn_classifier : Luhn.LuhnClassifier → Classifier
luhn_classifier c = record { name = Luhn.name; scan = Luhn.scan c }

abbrev pesel_classifier : Pesel.PeselClassifier → Classifier
pesel_classifier c = record { name = Pesel.name; scan = Pesel.scan c }

abbrev iban_classifier : Iban.IbanClassifier → Classifier
iban_classifier c = record { name = Iban.name; scan = Iban.scan c }

abbrev nip_classifier : Nip.NipClassifier → Classifier
nip_classifier c = record { name = Nip.name; scan = Nip.scan c }

-- `ClassifierRegistry::with_defaults`; `none` is a pattern that does not compile.
unfoldable pub with_defaults : (String → Option Regex) → Option ClassifierRegistry
unfolding new register Luhn.new Pesel.new Iban.new Nip.new
with_defaults regex_new = elim (Luhn.new regex_new) [
  | none ↦ none
  | some luhn ↦ elim (Pesel.new regex_new) [
    | none ↦ none
    | some pesel ↦ elim (Iban.new regex_new) [
      | none ↦ none
      | some iban ↦ elim (Nip.new regex_new) [
        | none ↦ none
        | some nip ↦ some (
            register (nip_classifier nip) (
              register (iban_classifier iban)
                (register (pesel_classifier pesel) (register (luhn_classifier luhn) new))))
      ]
    ]
  ]
]

-- `out.extend(c.scan(text))`, where a panic ends the loop.
abbrev pub extend : Option (List Match) → Option (List Match) → Option (List Match)
extend none rest = none
extend (some out) none = none
extend (some out) (some rest) = some (out ++ rest)

unfoldable pub scan_items : List Classifier → Text → Option (List Match)
scan_items [] text = some []
scan_items (c ∷ cs) text = extend (c.scan text) (scan_items cs text)

unfoldable pub scan_all : ClassifierRegistry → Text → Option (List Match)
unfolding scan_items
scan_all r text = scan_items r.items text

pub len : ClassifierRegistry → ℕ
len r = length r.items

pub registry_is_empty : ClassifierRegistry → Bool
registry_is_empty r = is_empty r.items
