-- ===== src/Classifier/Iban/Panic.antt =====
-- classifier/iban.rs, `scan` on digits that are not ASCII: `\d` of the regex crate matches every
-- decimal digit of Unicode, while `split_at(4)` counts bytes.
use scrooge_dlp.Common.{true, none, List, [], ◌∷◌, ◌++◌, ◌≡◌, ◌⊎◌, arith, ◌≤◌, ◌<◌}
use scrooge_dlp.Common.Text.{Text, byte_len, len_utf8, is_ascii_uppercase, split_at}
use scrooge_dlp.Classifier.Defs.{RegexMatch, scan_loop_panics}
use scrooge_dlp.Classifier.Iban.{IbanClassifier, iban_check, stripped_of, scan_body, scan}

-- Two capital letters and two digits, of which the first takes three bytes of UTF-8 or more, or
-- takes one and the second two or more: byte 4 lies inside a character.
abbrev pub HasWideDigit : Text → Type 0
HasWideDigit (a ∷ b ∷ c ∷ d ∷ t) =
    (is_ascii_uppercase a ≡ true)
    × (is_ascii_uppercase b ≡ true)
    × ((2 < len_utf8 c) ⊎ ((len_utf8 c ≡ 1) × (1 < len_utf8 d)))
HasWideDigit _ = ⊥

split_at-wide : (t : Text) → HasWideDigit t → split_at 4 t ≡ none
split_at-wide [] h = absurd h
split_at-wide (a ∷ []) h = absurd h
split_at-wide (a ∷ b ∷ []) h = absurd h
split_at-wide (a ∷ b ∷ c ∷ []) h = absurd h
split_at-wide (a ∷ b ∷ c ∷ d ∷ t) h = ground arith

iban_check-wide : (t : Text) → HasWideDigit t → iban_check t ≡ none
unfolding iban_check
iban_check-wide t h = rw (split_at-wide t h, iban_check)

scan_body-wide :
    (m : RegexMatch)
    → HasWideDigit (stripped_of m)
    → 15 ≤ byte_len (stripped_of m)
    → byte_len (stripped_of m) ≤ 34
    → scan_body m ≡ none
unfolding scan_body
scan_body-wide m h l u = ground (arith, iban_check-wide (stripped_of m) h)

-- One match of 15 to 34 bytes (spaces left out) with a wide digit makes the whole scan panic,
-- whatever was found before it and stands behind it.
pub scan-panics :
    (c : IbanClassifier) (text : Text) (before : List RegexMatch) (m : RegexMatch)
    (behind : List RegexMatch)
    → c.re text ≡ before ++ m ∷ behind
    → HasWideDigit (stripped_of m)
    → 15 ≤ byte_len (stripped_of m)
    → byte_len (stripped_of m) ≤ 34
    → scan c text ≡ none
unfolding scan
scan-panics c text before m behind found h l u =
    rw found (scan_loop_panics scan_body before m behind (scan_body-wide m h l u))
