-- ===== src/Tests/Checksums.antt =====
-- The checksums of the classifiers: runs, after the tests in the source files, and the theorems at
-- inputs that meet their hypotheses.
use mathlib.Core.List.{reverse}
use scrooge_dlp.Common.{
  ℕ, true, false, some, [], ◌∷◌, ◌++◌, ◌≡◌, ◌⊎◌, refl, arith, ◌==◌, ◌&&◌, ◌%◌, inr,
}
use scrooge_dlp.Common.Text.{Text, codes, byte_len, as_bytes}
use scrooge_dlp.Classifier.Luhn.{luhn_check}
use scrooge_dlp.Classifier.Luhn.Sum.{luhn_total, luhn_check-eq-luhn_total}
use scrooge_dlp.Classifier.Luhn.Errors.{luhn_check-substitution, luhn_check-transposition}
use scrooge_dlp.Classifier.Pesel.{pesel_check}
use scrooge_dlp.Classifier.Pesel.Check.{is_pesel, pesel_check-eq-is_pesel}
use scrooge_dlp.Classifier.Weights.{weigh}
use scrooge_dlp.Classifier.Nip.{nip_check}
use scrooge_dlp.Classifier.Nip.Check.{is_nip, nip_check-eq-is_nip}
use scrooge_dlp.Classifier.Iban.{mod97_loop, iban_check, char_value, next_remainder}
use scrooge_dlp.Classifier.Iban.Check.{is_iban, iban_check-eq-is_iban}
use scrooge_dlp.Classifier.Iban.Errors.{iban_check-substitution}

abbrev visa : Text
visa = codes "4532015112830366"

luhn_check-visa : luhn_check visa ≡ true
unfolding luhn_check
luhn_check-visa = refl

luhn_check-amex : luhn_check (codes "378282246310005") ≡ true
unfolding luhn_check
luhn_check-amex = refl

luhn_check-wrong : luhn_check (codes "4532015112830367") ≡ false
unfolding luhn_check
luhn_check-wrong = refl

luhn_check-eq-luhn_total_example : luhn_check visa ≡ (luhn_total (reverse visa) % 10 == 0)
luhn_check-eq-luhn_total_example = luhn_check-eq-luhn_total visa (omega arith)

luhn_check-substitution_example : luhn_check (codes "453201511283036" ++ 55 ∷ []) ≡ false
luhn_check-substitution_example =
    luhn_check-substitution (codes "453201511283036") [] 54 55 (omega arith) refl refl (omega arith)
      luhn_check-visa

luhn_check-091 : luhn_check (codes "091") ≡ true
unfolding luhn_check
luhn_check-091 = refl

luhn_check-901 : luhn_check (codes "901") ≡ true
unfolding luhn_check
luhn_check-901 = refl

luhn_check-transposition_example :
    (◌≡◌ {A = ℕ} 48 57)
    ⊎ ((◌≡◌ {A = ℕ} 48 48) × (◌≡◌ {A = ℕ} 57 57))
    ⊎ ((◌≡◌ {A = ℕ} 48 57) × (◌≡◌ {A = ℕ} 57 48))
luhn_check-transposition_example =
    luhn_check-transposition [] (49 ∷ []) 48 57 (omega arith) refl refl luhn_check-091
      luhn_check-901

abbrev pesel : Text
pesel = codes "44051401359"

pesel_check-right : pesel_check pesel ≡ some true
unfolding pesel_check weigh
pesel_check-right = refl

pesel_check-ones : pesel_check (codes "11111111111") ≡ some false
unfolding pesel_check weigh
pesel_check-ones = refl

pesel_check-eq-is_pesel_example :
    pesel_check pesel ≡ some (byte_len pesel == 11 && is_pesel (as_bytes pesel))
pesel_check-eq-is_pesel_example = pesel_check-eq-is_pesel pesel (omega arith)

abbrev nip : Text
nip = codes "5260250995"

nip_check-right : nip_check nip ≡ some true
unfolding nip_check weigh
nip_check-right = refl

nip_check-fake : nip_check (codes "1234567890") ≡ some false
unfolding nip_check weigh
nip_check-fake = refl

nip_check-eq-is_nip_example : nip_check nip ≡ some (byte_len nip == 10 && is_nip (as_bytes nip))
nip_check-eq-is_nip_example = nip_check-eq-is_nip nip (omega arith)

abbrev iban : Text
iban = codes "GB82WEST12345698765432"

iban_check-right : iban_check iban ≡ some true
unfolding iban_check mod97_loop char_value next_remainder
iban_check-right = refl

iban_check-wrong : iban_check (codes "PL62109010140000071219812874") ≡ some false
unfolding iban_check mod97_loop char_value next_remainder
iban_check-wrong = refl

iban_check-eq-is_iban_example : iban_check iban ≡ some (is_iban iban)
iban_check-eq-is_iban_example = iban_check-eq-is_iban iban refl (omega arith)

iban_check-substitution_example :
    iban_check (codes "GB82WES" ++ 85 ∷ codes "12345698765432") ≡ some false
iban_check-substitution_example =
    iban_check-substitution (codes "GB82WES") (codes "12345698765432") 84 85 refl (omega arith)
      (inr (refl, refl)) (omega arith) iban_check-right
