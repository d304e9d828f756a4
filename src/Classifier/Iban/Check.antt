-- ===== src/Classifier/Iban/Check.antt =====
-- classifier/iban.rs, `iban_check`, against the rule of ISO 13616: the rearranged characters, each
-- letter as two digits, read as one decimal number, which is 1 modulo 97.
use scrooge_dlp.Common.{
  ℕ, Bool, true, false, none, some, [], ◌∷◌, ◌++◌, ◌≡◌, refl, ap, ◌∙◌, arith, ◌==◌, ◌&&◌, ◌||◌, ◌≤◌,
  ◌+◌, ◌-◌, ◌*◌, ◌%◌, if◌then◌else◌, length, all, take, drop, Bool-cases, inl, inr,
}
use scrooge_dlp.Common.Text.{
  Text, split_at, is_ascii, is_ascii_digit, is_ascii_uppercase, split_at-ascii,
}
use scrooge_dlp.Classifier.Iban.{char_value, next_remainder, mod97_loop, iban_check}

abbrev pub is_alphanumeric : ℕ → Bool
is_alphanumeric c = is_ascii_digit c || is_ascii_uppercase c

-- The number read so far, with one more character behind it.
abbrev pub append_char : ℕ → ℕ → ℕ
append_char n c = if is_ascii_digit c then n * 10 + (c - 48) else n * 100 + (c - 55)

unfoldable pub decimal : ℕ → Text → ℕ
decimal n [] = n
decimal n (c ∷ cs) = decimal (append_char n c) cs

pub char_value-digit : (c : ℕ) → is_ascii_digit c ≡ true → char_value c ≡ some (c - 48)
unfolding char_value
char_value-digit c h = ground arith

pub char_value-letter :
    (c : ℕ) → is_ascii_digit c ≡ false → is_ascii_uppercase c ≡ true → char_value c ≡ some (c - 55)
unfolding char_value
char_value-letter c d h = ground arith

pub char_value-other : (c : ℕ) → is_alphanumeric c ≡ false → char_value c ≡ none
unfolding char_value
char_value-other c h = ground arith

next_remainder-digit :
    (n c : ℕ)
    → is_ascii_digit c ≡ true
    → next_remainder (n % 97) (c - 48) ≡ (n * 10 + (c - 48)) % 97
unfolding next_remainder
next_remainder-digit n c h = ground arith

next_remainder-letter :
    (n c : ℕ)
    → is_ascii_uppercase c ≡ true
    → next_remainder (n % 97) (c - 55) ≡ (n * 100 + (c - 55)) % 97
unfolding next_remainder
next_remainder-letter n c h = ground arith

pub loop_step :
    (r c v : ℕ) (cs : Text)
    → char_value c ≡ some v
    → mod97_loop r (c ∷ cs) ≡ mod97_loop (next_remainder r v) cs
unfolding mod97_loop
loop_step r c v cs e = rw (e, mod97_loop)

pub loop_stop : (r c : ℕ) (cs : Text) → char_value c ≡ none → mod97_loop r (c ∷ cs) ≡ false
unfolding mod97_loop
loop_stop r c cs e = rw (e, mod97_loop)

pub mod97_loop-nil : (r : ℕ) → mod97_loop r [] ≡ (r == 1)
unfolding mod97_loop
mod97_loop-nil r = refl

-- The loop keeps the remainder of the number read so far, and its `u64` never wraps.
mod97_loop-eq-decimal :
    (n : ℕ) (t : Text) → mod97_loop (n % 97) t ≡ (all is_alphanumeric t && decimal n t % 97 == 1)
unfolding decimal
mod97_loop-eq-decimal n [] = mod97_loop-nil (n % 97)
mod97_loop-eq-decimal n (c ∷ cs) = elim (Bool-cases (is_ascii_digit c)) [
  | inl d ↦
      rw (loop_step (n % 97) c (c - 48) cs (char_value-digit c d), next_remainder-digit n c d, d)
        (mod97_loop-eq-decimal (n * 10 + (c - 48)) cs)
  | inr d ↦ elim (Bool-cases (is_ascii_uppercase c)) [
    | inl u ↦
        rw
          (
            loop_step (n % 97) c (c - 55) cs (char_value-letter c d u),
            next_remainder-letter n c u,
            d,
            u,
          )
          (mod97_loop-eq-decimal (n * 100 + (c - 55)) cs)
    | inr u ↦ rw (loop_stop (n % 97) c cs (char_value-other c (ground arith)), d, u) refl
  ]
]

unfoldable pub is_iban : Text → Bool
is_iban t =
    let rearranged = drop 4 t ++ take 4 t in
    all is_alphanumeric rearranged && decimal 0 rearranged % 97 == 1

pub iban_check-split :
    (t head tail : Text)
    → split_at 4 t ≡ some (head, tail)
    → iban_check t ≡ some (mod97_loop 0 (tail ++ head))
unfolding iban_check
iban_check-split t head tail e = rw (e, iban_check)

-- On an ASCII text of four characters or more the check is total, and accepts exactly the texts of
-- digits and capital letters for which the number of ISO 13616 is 1 modulo 97.
pub iban_check-eq-is_iban :
    (t : Text) → all is_ascii t ≡ true → 4 ≤ length t → iban_check t ≡ some (is_iban t)
unfolding is_iban
iban_check-eq-is_iban t h l =
    iban_check-split t (take 4 t) (drop 4 t) (split_at-ascii 4 t h l)
    ∙ ap some (mod97_loop-eq-decimal 0 (drop 4 t ++ take 4 t))
