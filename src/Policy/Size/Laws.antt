-- ===== src/Policy/Size/Laws.antt =====
-- `parse_size` on a number with a unit behind it.
use mathlib.Core.List.{reverse, reverse-reverse}
use scrooge_dlp.Common.{
  ℕ, Bool, true, false, some, [], ◌∷◌, ◌++◌, ◌≡◌, ◌≢◌, refl, ap, ◌∙◌, arith, not, ◌&&◌, ◌<◌, ◌≤◌,
  ◌*◌, ◌%◌, ◌^◌, leb, ok, map, all, all-append, all-reverse,
}
use scrooge_dlp.Common.Text.{Text, is_whitespace, is_ascii_digit}
use scrooge_dlp.Policy.Size.{
  trim_start, trim, split_digits, decimal, parse_u64, to_uppercase, multiplier, parse_size,
}

abbrev is_visible : ℕ → Bool
is_visible c = not (is_whitespace c)

trim_start-visible : (t : Text) → all is_visible t ≡ true → trim_start t ≡ t
unfolding trim_start
trim_start-visible [] h = refl
trim_start-visible (c ∷ t) h = ground arith

trim-visible : (t : Text) → all is_visible t ≡ true → trim t ≡ t
unfolding trim
trim-visible t h = rw (
  trim_start-visible t h,
  trim_start-visible (reverse t) (all-reverse is_visible t ∙ h),
  reverse-reverse t,
)

digits-visible : (t : Text) → all is_ascii_digit t ≡ true → all is_visible t ≡ true
digits-visible [] h = refl
digits-visible (c ∷ t) h = ground (arith, digits-visible t)

-- The text is empty or begins with no digit.
abbrev NoDigit : Text → Type 0
NoDigit [] = Unit
NoDigit (c ∷ t) = is_ascii_digit c ≡ false

split_digits-append :
    (ds u : Text) → all is_ascii_digit ds ≡ true → NoDigit u → split_digits (ds ++ u) ≡ (ds, u)
unfolding split_digits
split_digits-append [] [] h n = refl
split_digits-append [] (c ∷ u) h n = ground arith
split_digits-append (c ∷ ds) u h n = ground (arith, split_digits-append ds u)

parse_u64-digits :
    (ds : Text) → ds ≢ [] → decimal 0 ds < 2 ^ 64 → parse_u64 ds ≡ some (decimal 0 ds)
unfolding parse_u64
parse_u64-digits [] ne h = absurd (ne refl)
parse_u64-digits (c ∷ ds) ne h = ground arith

-- The units are made of letters.
abbrev is_letter : ℕ → Bool
is_letter c = leb 65 c && leb c 122

letter-visible : (c : ℕ) → is_letter c ≡ true → is_visible c ≡ true
letter-visible c h = ground arith

unit_letters :
    (u : Text) (m : ℕ) → multiplier (map to_uppercase u) ≡ some m → all is_letter u ≡ true
unfolding multiplier
unit_letters [] m h = refl
unit_letters (c ∷ []) m h = ground arith
unit_letters (c ∷ d ∷ []) m h = ground arith
unit_letters (c ∷ d ∷ e ∷ u) m h = ground arith

letters-visible : (u : Text) → all is_letter u ≡ true → all is_visible u ≡ true
letters-visible [] h = refl
letters-visible (c ∷ u) h = ground (arith, letter-visible c, letters-visible u)

letters-NoDigit : (u : Text) → all is_letter u ≡ true → NoDigit u
letters-NoDigit [] h = tt
letters-NoDigit (c ∷ u) h = ground arith

-- A number below 2^64 with a unit behind it, in small letters or capitals.
parse_size-unit :
    (ds u : Text) (m : ℕ)
    → all is_ascii_digit ds ≡ true
    → ds ≢ []
    → decimal 0 ds < 2 ^ 64
    → multiplier (map to_uppercase u) ≡ some m
    → parse_size (ds ++ u) ≡ ok (decimal 0 ds * m % 2 ^ 64)
unfolding parse_size decimal
parse_size-unit ds u m digits ne room unit =
    let letters = unit_letters u m unit in
    let seen = letters-visible u letters in
    let whole : all is_visible (ds ++ u) ≡ true =
      ground (arith, all-append is_visible ds u, digits-visible ds digits) in
    rw (
      trim-visible (ds ++ u) whole,
      split_digits-append ds u digits (letters-NoDigit u letters),
      parse_u64-digits ds ne room,
      trim-visible u seen,
      unit,
    )

-- A digit string and a unit whose product is below 2^64 are read as that product.
pub parse_size-exact :
    (ds u : Text) (m : ℕ)
    → all is_ascii_digit ds ≡ true
    → ds ≢ []
    → decimal 0 ds < 2 ^ 64
    → multiplier (map to_uppercase u) ≡ some m
    → decimal 0 ds * m < 2 ^ 64
    → parse_size (ds ++ u) ≡ ok (decimal 0 ds * m)
parse_size-exact ds u m digits ne room unit fits =
    parse_size-unit ds u m digits ne room unit ∙ ap ok (omega arith)

-- A number below 2^64 whose product with its unit is 2^64 or more is no error: it is accepted as
-- a smaller size.
pub parse_size-wraps :
    (ds u : Text) (m : ℕ)
    → all is_ascii_digit ds ≡ true
    → ds ≢ []
    → decimal 0 ds < 2 ^ 64
    → multiplier (map to_uppercase u) ≡ some m
    → 2 ^ 64 ≤ decimal 0 ds * m
    → (n : ℕ) × (parse_size (ds ++ u) ≡ ok n) × (n < decimal 0 ds * m)
parse_size-wraps ds u m digits ne room unit big =
    (decimal 0 ds * m % 2 ^ 64, parse_size-unit ds u m digits ne room unit, omega arith)
