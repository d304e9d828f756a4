-- ===== src/Classifier/Luhn/Sum.antt =====
-- classifier/luhn.rs, `luhn_check`: the loop against the sum that the Luhn rule asks for.
use mathlib.Core.List.{reverse}
use native.Mathlib.Nat.{zero-add}
use scrooge_dlp.Common.{
  ap, ℕ, [], ◌∷◌, ◌≡◌, refl, arith, ◌==◌, ◌+◌, ◌*◌, ◌/◌, ◌%◌, ◌^◌, ◌≤◌, ◌<◌, length, length-reverse,
}
use scrooge_dlp.Common.Text.{Text, digit_value}
use scrooge_dlp.Classifier.Defs.{u32}
use scrooge_dlp.Classifier.Luhn.{luhn_value, luhn_loop, luhn_check}

-- What the digits from place `i` on add up to.
unfoldable pub luhn_sum : ℕ → Text → ℕ
luhn_sum i [] = 0
luhn_sum i (c ∷ cs) = luhn_value i (digit_value c) + luhn_sum (i + 1) cs

pub digit_value-le : (c : ℕ) → digit_value c ≤ 9
digit_value-le c = ground arith

pub luhn_value-le : (i d : ℕ) → d ≤ 9 → luhn_value i d ≤ 9
luhn_value-le i d h = ground arith

luhn_sum-le : (i : ℕ) (t : Text) → luhn_sum i t ≤ 9 * length t
unfolding luhn_sum
luhn_sum-le i [] = omega arith
luhn_sum-le i (c ∷ cs) =
    omega (arith, luhn_value-le i (digit_value c) (digit_value-le c), luhn_sum-le (i + 1) cs)

u32-lt : (n : ℕ) → n < 2 ^ 32 → u32 n ≡ n
u32-lt n h = omega arith

-- Short of 2^32 / 9 digits the loop never wraps.
luhn_loop-eq-luhn_sum :
    (i s : ℕ) (t : Text) → s + 9 * length t < 2 ^ 32 → luhn_loop i s t ≡ s + luhn_sum i t
unfolding luhn_loop luhn_sum
luhn_loop-eq-luhn_sum i s [] h = omega arith
luhn_loop-eq-luhn_sum i s (c ∷ cs) h =
    let v = luhn_value i (digit_value c) in
    let le : v ≤ 9 = luhn_value-le i (digit_value c) (digit_value-le c) in
    rw (u32-lt (s + v) (omega arith))
      (omega (arith, luhn_loop-eq-luhn_sum (i + 1) (s + v) cs (omega arith)))

-- The decimal digits of a number below 100, added.
abbrev pub digit_sum : ℕ → ℕ
digit_sum n = n / 10 + n % 10

-- The Luhn rule, from the check digit on: a digit as it is, then the digit sum of a doubled one.
unfoldable pub luhn_total : Text → ℕ
luhn_total [] = 0
luhn_total (c ∷ []) = digit_value c
luhn_total (c ∷ d ∷ t) = digit_value c + digit_sum (2 * digit_value d) + luhn_total t

luhn_value-even : (i d : ℕ) → i % 2 ≡ 0 → luhn_value i d ≡ d
luhn_value-even i d h = ground arith

luhn_value-odd : (i d : ℕ) → d ≤ 9 → i % 2 ≡ 0 → luhn_value (i + 1) d ≡ digit_sum (2 * d)
luhn_value-odd i d l h = ground arith

luhn_sum-eq-luhn_total : (i : ℕ) (t : Text) → i % 2 ≡ 0 → luhn_sum i t ≡ luhn_total t
unfolding luhn_sum luhn_total
luhn_sum-eq-luhn_total i [] h = refl
luhn_sum-eq-luhn_total i (c ∷ []) h = omega (arith, luhn_value-even i (digit_value c) h)
luhn_sum-eq-luhn_total i (c ∷ d ∷ t) h = omega (
  arith,
  luhn_value-even i (digit_value c) h,
  luhn_value-odd i (digit_value d) (digit_value-le d) h,
  luhn_sum-eq-luhn_total (i + 1 + 1) t (omega arith),
)

abbrev pub IsShort : Text → Type 0
IsShort t = 9 * length t < 2 ^ 32

pub luhn_check-eq-luhn_sum :
    (t : Text) → IsShort t → luhn_check t ≡ (luhn_sum 0 (reverse t) % 10 == 0)
unfolding luhn_check
luhn_check-eq-luhn_sum t h =
    rw (luhn_loop-eq-luhn_sum 0 0 (reverse t) (omega (arith, length-reverse t)))
      (ap (λ n. n % 10 == 0) (zero-add (luhn_sum 0 (reverse t))))

-- On a text of fewer than 2^32 / 9 characters, `luhn_check` accepts exactly when the sum of the
-- Luhn rule, taken from the last digit backwards, is a multiple of 10: its `u32` never wraps.
pub luhn_check-eq-luhn_total :
    (t : Text) → IsShort t → luhn_check t ≡ (luhn_total (reverse t) % 10 == 0)
luhn_check-eq-luhn_total t h =
    rw (luhn_check-eq-luhn_sum t h, luhn_sum-eq-luhn_total 0 (reverse t) refl)
