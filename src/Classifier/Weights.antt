-- ===== src/Classifier/Weights.antt =====
-- The loop over the weights that classifier/pesel.rs and classifier/nip.rs both have:
-- `for (i, w) in WEIGHTS.iter().enumerate()`, with `d = u32::from(bytes[i] - b'0')`.
pub mod Last
use scrooge_dlp.Common.{
  ℕ, suc, Bool, true, false, List, [], ◌∷◌, ◌++◌, ◌≡◌, refl, arith, ltb, leb, ◌&&◌, ◌≤◌, ◌<◌, ◌+◌,
  ◌-◌, ◌*◌, ◌%◌, ◌^◌, if◌then◌else◌, length, take, all, All, ap, Bool-cases, inl, inr, ◌≢◌,
}
use native.Mathlib.Nat.{add_assoc, zero-add}
use scrooge_dlp.Common.Text.{is_ascii_digit}
use scrooge_dlp.Classifier.Defs.{u32}

-- How the loop ends: `bytes[i]` out of bounds, `return false` at a byte that is no digit, or the sum.
pub data Weighed : Type 0 where
  out_of_bounds not_digit : Weighed
  total : ℕ → Weighed

-- `u8` subtraction of a release build wraps.
abbrev pub sub_u8 : ℕ → ℕ → ℕ
sub_u8 a b = (a + 256 - b) % 256

-- `i` runs over the weights, so `bytes[i]` is the head of the bytes that are left.
unfoldable pub weigh : List ℕ → List ℕ → ℕ → Weighed
weigh [] bytes sum = total sum
weigh (w ∷ ws) [] sum = out_of_bounds
weigh (w ∷ ws) (b ∷ bytes) sum =
    if ltb 9 (sub_u8 b 48) then not_digit else weigh ws bytes (u32 (sum + sub_u8 b 48 * w))

-- The weighted sum of the digits.
unfoldable pub dot : List ℕ → List ℕ → ℕ
dot [] bytes = 0
dot (w ∷ ws) [] = 0
dot (w ∷ ws) (b ∷ bytes) = (b - 48) * w + dot ws bytes

abbrev pub IsByte : ℕ → Type 0
IsByte b = b < 256

digit-sub_u8 : (b : ℕ) → b < 256 → ltb 9 (sub_u8 b 48) ≡ false → is_ascii_digit b ≡ true
digit-sub_u8 b h e = ground arith

sub_u8-digit : (b : ℕ) → is_ascii_digit b ≡ true → sub_u8 b 48 ≡ b - 48
sub_u8-digit b e = ground arith

digit-le : (b : ℕ) → is_ascii_digit b ≡ true → b - 48 ≤ 9
digit-le b e = ground arith

not_digit-sub_u8 : (b : ℕ) → b < 256 → ltb 9 (sub_u8 b 48) ≡ true → is_ascii_digit b ≡ false
not_digit-sub_u8 b h e = ground arith

product-le : (d w : ℕ) → d ≤ 9 → w ≤ 9 → d * w ≤ 81
product-le d w hd hw = grind arith

-- With enough bytes and room in a `u32` the loop sums the weighted digits, and stops short exactly
-- at a byte that is no digit.
pub weigh-eq-dot :
    (ws bs : List ℕ) (s : ℕ)
    → length ws ≤ length bs
    → All IsByte bs
    → All (λ w. w ≤ 9) ws
    → s + 81 * length ws < 2 ^ 32
    → weigh ws bs s
      ≡ (if all is_ascii_digit (take (length ws) bs) then total (s + dot ws bs) else not_digit)
unfolding weigh dot
weigh-eq-dot [] bs s l hb hw room = ap total (omega arith)
weigh-eq-dot (w ∷ ws) [] s l hb hw room = elim l [ ]
weigh-eq-dot (w ∷ ws) (b ∷ bs) s l hb hw room = elim (Bool-cases (ltb 9 (sub_u8 b 48))) [
  | inl e ↦ rw (e, not_digit-sub_u8 b hb.0 e)
  | inr e ↦
      let d : is_ascii_digit b ≡ true = digit-sub_u8 b hb.0 e in
      let le : (b - 48) * w ≤ 81 = product-le (b - 48) w (digit-le b d) hw.0 in
      let fits : u32 (s + (b - 48) * w) ≡ s + (b - 48) * w = omega arith in
      rw (
        e,
        d,
        sub_u8-digit b d,
        fits,
        weigh-eq-dot ws bs (s + (b - 48) * w) (omega arith) hb.1 hw.1 (omega arith),
        add_assoc s,
      )
]

-- Digits that are told apart by their weight, whatever is added.
abbrev pub Cancels : ℕ → ℕ → Type 0
Cancels m w = (x a b : ℕ) → a ≤ 9 → b ≤ 9 → (x + a * w) % m ≡ 0 → (x + b * w) % m ≡ 0 → a ≡ b

abbrev pub IsDigits : List ℕ → Type 0
IsDigits = All (λ b. is_ascii_digit b ≡ true)

dot-substitution_digit :
    (m : ℕ) (ws p q : List ℕ) (x a b : ℕ)
    → length (p ++ a ∷ q) ≤ length ws
    → All (Cancels m) ws
    → is_ascii_digit a ≡ true
    → is_ascii_digit b ≡ true
    → (x + dot ws (p ++ a ∷ q)) % m ≡ 0
    → (x + dot ws (p ++ b ∷ q)) % m ≡ 0
    → a - 48 ≡ b - 48
unfolding dot
dot-substitution_digit m [] [] q x a b l hw ha hb e f = elim l [ ]
dot-substitution_digit m [] (c ∷ p) q x a b l hw ha hb e f = elim l [ ]
dot-substitution_digit m (w ∷ ws) [] q x a b l hw ha hb e f =
    hw.0 (x + dot ws q) (a - 48) (b - 48) (digit-le a ha) (digit-le b hb)
      (rw (regroup x ((a - 48) * w) (dot ws q)) at e)
      (rw (regroup x ((b - 48) * w) (dot ws q)) at f)
  where
    regroup : (x y z : ℕ) → x + (y + z) ≡ x + z + y
    regroup x y z = omega arith
dot-substitution_digit m (w ∷ ws) (c ∷ p) q x a b l hw ha hb e f =
    dot-substitution_digit m ws p q (x + (c - 48) * w) a b (omega arith) hw.1 ha hb
      (rw (← add_assoc x ((c - 48) * w)) at e) (rw (← add_assoc x ((c - 48) * w)) at f)

-- Where each weight tells the digits apart modulo `m`, a weighted sum that is a multiple of `m` is
-- none after one digit is replaced by another.
pub dot-substitution :
    (m : ℕ) (ws p q : List ℕ) (a b : ℕ)
    → length (p ++ a ∷ q) ≤ length ws
    → All (Cancels m) ws
    → is_ascii_digit a ≡ true
    → is_ascii_digit b ≡ true
    → a ≢ b
    → dot ws (p ++ a ∷ q) % m ≡ 0
    → dot ws (p ++ b ∷ q) % m ≢ 0
dot-substitution m ws p q a b l hw ha hb ne e f =
    let same =
      dot-substitution_digit m ws p q 0 a b l hw ha hb (rw (zero-add (dot ws (p ++ a ∷ q))) e)
        (rw (zero-add (dot ws (p ++ b ∷ q))) f) in
    ne (ground arith)
