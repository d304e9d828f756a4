-- ===== src/Policy/Size.antt =====
-- crates/scrooge-policy/src/rules.rs, `parse_size`: file sizes with a unit. The text is the list of
-- its code points. `to_uppercase` is kept to ASCII: no other character becomes B, K, M or G.
pub mod Laws
use mathlib.Core.List.{reverse}
use scrooge_dlp.Common.{
  ℕ, Bool, true, false, Option, none, some, List, [], ◌∷◌, ◌==◌, ltb, ◌&&◌, if◌then◌else◌, ◌+◌, ◌-◌,
  ◌*◌, ◌%◌, ◌^◌, Outcome, ok, err, ◌>>=◌, ok_or, map,
}
use scrooge_dlp.Common.Text.{Text, codes, is_whitespace, is_ascii_digit, is_ascii_lowercase}

pub data SizeError : Type 0 where
  invalid_number unknown_unit : Text → SizeError

unfoldable pub trim_start : Text → Text
trim_start [] = []
trim_start (c ∷ t) = if is_whitespace c then trim_start t else c ∷ t

-- `str::trim`
unfoldable pub trim : Text → Text
unfolding trim_start
trim t = reverse (trim_start (reverse (trim_start t)))

abbrev pub cons_first : ℕ → Text × Text → Text × Text
cons_first c (a, b) = (c ∷ a, b)

-- The text cut in front of its first character that is no digit.
unfoldable pub split_digits : Text → Text × Text
split_digits [] = ([], [])
split_digits (c ∷ t) = if is_ascii_digit c then cons_first c (split_digits t) else ([], c ∷ t)

unfoldable pub decimal : ℕ → Text → ℕ
decimal n [] = n
decimal n (c ∷ t) = decimal (n * 10 + (c - 48)) t

-- `num_part.parse::<u64>()` on a text of digits.
unfoldable pub parse_u64 : Text → Option ℕ
unfolding decimal
parse_u64 [] = none
parse_u64 (c ∷ t) = if ltb (decimal 0 (c ∷ t)) (2 ^ 64) then some (decimal 0 (c ∷ t)) else none

abbrev pub to_uppercase : ℕ → ℕ
to_uppercase c = if is_ascii_lowercase c then c - 32 else c

abbrev pub text_eq : Text → Text → Bool
text_eq [] [] = true
text_eq [] (d ∷ t) = false
text_eq (c ∷ s) [] = false
text_eq (c ∷ s) (d ∷ t) = c == d && text_eq s t

-- The units, already in capitals.
unfoldable pub multiplier : Text → Option ℕ
multiplier u =
    if text_eq u []
    then some 1
    else if text_eq u (codes "B")
    then some 1
    else if text_eq u (codes "KB")
    then some 1024
    else if text_eq u (codes "K")
    then some 1024
    else if text_eq u (codes "MB")
    then some (1024 * 1024)
    else if text_eq u (codes "M")
    then some (1024 * 1024)
    else if text_eq u (codes "GB")
    then some (1024 * 1024 * 1024)
    else if text_eq u (codes "G")
    then some (1024 * 1024 * 1024)
    else none

-- `num * multiplier` of a release build wraps.
unfoldable pub parse_size : Text → Outcome SizeError ℕ
unfolding trim split_digits parse_u64 multiplier
parse_size s = do
  let parts = split_digits (trim s)
  num ← ok_or (parse_u64 parts.0) (invalid_number parts.0)
  let unit = map to_uppercase (trim parts.1)
  factor ← ok_or (multiplier unit) (unknown_unit unit)
  ok (num * factor % 2 ^ 64)
