-- ===== src/Classifier/Luhn/Errors.antt =====
-- classifier/luhn.rs, `luhn_check`: which slips of the pen the checksum tells from a card number.
use mathlib.Core.List.{reverse, reverse-append, reverse-cons, append_assoc}
use native.Mathlib.Nat.{add-zero, zero-add}
use scrooge_dlp.Common.{
  ℕ, suc, true, false, [], ◌∷◌, ◌++◌, ◌≡◌, ◌≢◌, ◌⊎◌, inl, inr, sym, ◌∙◌, arith, ==_iff, Bool-cases,
  ◌+◌, ◌%◌, ◌≤◌, length, length-append, length-middle,
}
use scrooge_dlp.Common.Text.{Text, is_ascii_digit, digit_value}
use scrooge_dlp.Classifier.Luhn.{luhn_value, luhn_check}
use scrooge_dlp.Classifier.Luhn.Sum.{
  luhn_sum, luhn_value-le, digit_value-le, luhn_check-eq-luhn_sum, IsShort,
}

luhn_sum-append :
    (i : ℕ) (p q : Text) → luhn_sum i (p ++ q) ≡ luhn_sum i p + luhn_sum (i + length p) q
unfolding luhn_sum
luhn_sum-append i [] q = rw add-zero (omega arith)
luhn_sum-append i (c ∷ p) q =
    rw (luhn_sum-append (i + 1) p q) (rw (shift i (length p)) (omega arith))
  where
    shift : (i n : ℕ) → i + suc n ≡ i + 1 + n
    shift i n = omega arith

-- The value of a digit tells the digit, at every place.
luhn_value-injective : (i a b : ℕ) → a ≤ 9 → b ≤ 9 → luhn_value i a ≡ luhn_value i b → a ≡ b
luhn_value-injective i a b ha hb e = ground arith

-- Two neighbours that swap without a trace are equal, or are 0 and 9.
luhn_value-swap :
    (i a b n : ℕ)
    → a ≤ 9
    → b ≤ 9
    → (n + luhn_value i a + luhn_value (i + 1) b) % 10 ≡ 0
    → (n + luhn_value i b + luhn_value (i + 1) a) % 10 ≡ 0
    → (a ≡ b) ⊎ ((a ≡ 0) × (b ≡ 9)) ⊎ ((a ≡ 9) × (b ≡ 0))
luhn_value-swap i a b n ha hb e f = ground arith

reverse-middle : (p q : Text) (c : ℕ) → reverse (p ++ c ∷ q) ≡ reverse q ++ c ∷ reverse p
reverse-middle p q c = simp (reverse-append, reverse-cons, append_assoc)

reverse-middle_two :
    (p q : Text) (c d : ℕ) → reverse (p ++ c ∷ d ∷ q) ≡ reverse q ++ d ∷ c ∷ reverse p
reverse-middle_two p q c d = simp (reverse-append, reverse-cons, append_assoc)

luhn_sum-middle :
    (p q : Text) (c : ℕ)
    → luhn_sum 0 (p ++ c ∷ q)
      ≡ luhn_sum 0 p + luhn_value (length p) (digit_value c) + luhn_sum (length p + 1) q
unfolding luhn_sum
luhn_sum-middle p q c = rw (luhn_sum-append 0 p (c ∷ q), zero-add) (omega arith)

luhn_sum-middle_two :
    (p q : Text) (c d : ℕ)
    → luhn_sum 0 (p ++ c ∷ d ∷ q)
      ≡ luhn_sum 0 p
        + luhn_sum (length p + 1 + 1) q
        + luhn_value (length p) (digit_value c)
        + luhn_value (length p + 1) (digit_value d)
unfolding luhn_sum
luhn_sum-middle_two p q c d = rw (luhn_sum-append 0 p (c ∷ d ∷ q), zero-add) (omega arith)

digit_value-injective :
    (a b : ℕ)
    → is_ascii_digit a ≡ true
    → is_ascii_digit b ≡ true
    → digit_value a ≡ digit_value b
    → a ≡ b
digit_value-injective a b ha hb e = ground arith

accepted_sum : (t : Text) → IsShort t → luhn_check t ≡ true → luhn_sum 0 (reverse t) % 10 ≡ 0
accepted_sum t h e = (==_iff _ 0).0 (sym (luhn_check-eq-luhn_sum t h) ∙ e)

accepted_middle :
    (p q : Text) (c : ℕ)
    → IsShort (p ++ c ∷ q)
    → luhn_check (p ++ c ∷ q) ≡ true
    → (luhn_sum 0 (reverse q)
          + luhn_value (length (reverse q)) (digit_value c)
          + luhn_sum (length (reverse q) + 1) (reverse p))
        % 10
      ≡ 0
accepted_middle p q c h e =
    rw (← luhn_sum-middle (reverse q) (reverse p) c, ← reverse-middle p q c) (accepted_sum _ h e)

accepted_middle_two :
    (p q : Text) (c d : ℕ)
    → IsShort (p ++ c ∷ d ∷ q)
    → luhn_check (p ++ c ∷ d ∷ q) ≡ true
    → (luhn_sum 0 (reverse q)
          + luhn_sum (length (reverse q) + 1 + 1) (reverse p)
          + luhn_value (length (reverse q)) (digit_value d)
          + luhn_value (length (reverse q) + 1) (digit_value c))
        % 10
      ≡ 0
accepted_middle_two p q c d h e =
    rw (← luhn_sum-middle_two (reverse q) (reverse p) d c, ← reverse-middle_two p q c d)
      (accepted_sum _ h e)

same_rest : (x u v y : ℕ) → u ≤ 9 → v ≤ 9 → (x + u + y) % 10 ≡ 0 → (x + v + y) % 10 ≡ 0 → u ≡ v
same_rest x u v y hu hv e f = omega arith

same_digit :
    (p q : Text) (a b : ℕ)
    → IsShort (p ++ a ∷ q)
    → luhn_check (p ++ a ∷ q) ≡ true
    → luhn_check (p ++ b ∷ q) ≡ true
    → digit_value a ≡ digit_value b
same_digit p q a b h e f =
    let n = length (reverse q) in
    let la = digit_value-le a in
    let lb = digit_value-le b in
    luhn_value-injective n (digit_value a) (digit_value b) la lb (
      same_rest (luhn_sum 0 (reverse q)) _ _ (luhn_sum (n + 1) (reverse p))
        (luhn_value-le n (digit_value a) la) (luhn_value-le n (digit_value b) lb)
        (accepted_middle p q a h e)
        (accepted_middle p q b (omega (arith, length-middle {0} p q a b)) f))

-- No card number stays valid when one of its digits is replaced by another digit: of two texts
-- short of 2^32 / 9 characters that differ in one digit, at most one passes the check.
pub luhn_check-substitution :
    (p q : Text) (a b : ℕ)
    → IsShort (p ++ a ∷ q)
    → is_ascii_digit a ≡ true
    → is_ascii_digit b ≡ true
    → a ≢ b
    → luhn_check (p ++ a ∷ q) ≡ true
    → luhn_check (p ++ b ∷ q) ≡ false
luhn_check-substitution p q a b short ha hb ne e = elim (Bool-cases (luhn_check (p ++ b ∷ q))) [
  | inr f ↦ f
  | inl f ↦ absurd (ne (digit_value-injective a b ha hb (same_digit p q a b short e f)))
]

-- A text of fewer than 2^32 / 9 characters and the same text with two neighbouring digits swapped
-- both pass the check only if the two digits are equal, or are 0 and 9.
pub luhn_check-transposition :
    (p q : Text) (a b : ℕ)
    → IsShort (p ++ a ∷ b ∷ q)
    → is_ascii_digit a ≡ true
    → is_ascii_digit b ≡ true
    → luhn_check (p ++ a ∷ b ∷ q) ≡ true
    → luhn_check (p ++ b ∷ a ∷ q) ≡ true
    → (a ≡ b) ⊎ ((a ≡ 48) × (b ≡ 57)) ⊎ ((a ≡ 57) × (b ≡ 48))
luhn_check-transposition p q a b short ha hb e f =
    let n = length (reverse q) in
    let same_length : length (p ++ a ∷ b ∷ q) ≡ length (p ++ b ∷ a ∷ q) =
      omega (arith, length-append {0} p (a ∷ b ∷ q), length-append {0} p (b ∷ a ∷ q)) in
    let swap =
      luhn_value-swap n (digit_value b) (digit_value a)
        (luhn_sum 0 (reverse q) + luhn_sum (n + 1 + 1) (reverse p)) (digit_value-le b)
        (digit_value-le a) (accepted_middle_two p q a b short e)
        (accepted_middle_two p q b a (omega arith) f) in
    ground arith
