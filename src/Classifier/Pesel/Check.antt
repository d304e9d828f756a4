-- ===== src/Classifier/Pesel/Check.antt =====
-- classifier/pesel.rs, `pesel_check`, against the rule for the number: the eleven digits, weighted
-- by 1, 3, 7, 9, 1, 3, 7, 9, 1, 3 and 1, add up to a multiple of 10.
use scrooge_dlp.Common.{
  ℕ, Bool, true, false, some, List, [], ◌∷◌, ◌++◌, ◌≡◌, ◌≢◌, subst, arith, ◌==◌, ◌&&◌, ◌≤◌, ◌<◌,
  ◌+◌, ◌-◌, ◌*◌, ◌%◌, length, all, All, All-last, all-middle, all-at, all-append, get_elem?,
  Bool-cases, inl, inr, ==_iff,
}
use scrooge_dlp.Common.Text.{
  Text, IsText, as_bytes, byte_len, is_ascii_digit, length-as_bytes, as_bytes-IsByte, digits-ascii,
  digits-IsText, as_bytes-ascii, byte_len-ascii,
}
use scrooge_dlp.Classifier.Weights.{IsByte, sub_u8, weigh, dot, Cancels, dot-substitution}
use scrooge_dlp.Classifier.Weights.Last.{snoc-cases, get_elem?-snoc, dot-snoc_both, weigh-snoc}
use scrooge_dlp.Classifier.Pesel.{weights, finish, pesel_check}

abbrev pub full_weights : List ℕ
full_weights = 1 ∷ 3 ∷ 7 ∷ 9 ∷ 1 ∷ 3 ∷ 7 ∷ 9 ∷ 1 ∷ 3 ∷ 1 ∷ []

unfoldable pub is_pesel : List ℕ → Bool
is_pesel bytes = all is_ascii_digit bytes && dot full_weights bytes % 10 == 0

weights_small : All (λ w. w ≤ 9) weights
weights_small = omega arith

last_digit :
    (sum b : ℕ)
    → b < 256
    → ((10 - sum % 10) % 10 == sub_u8 b 48) ≡ (is_ascii_digit b && (sum + (b - 48) * 1) % 10 == 0)
last_digit sum b h = ground arith

check_snoc :
    (p : List ℕ) (b : ℕ)
    → length p ≡ 10
    → All IsByte (p ++ b ∷ [])
    → b < 256
    → finish (weigh weights (p ++ b ∷ []) 0) (some b) ≡ some (is_pesel (p ++ b ∷ []))
unfolding is_pesel
check_snoc p b l hb h =
    rw
      (
        weigh-snoc weights p b l hb weights_small (omega arith),
        dot-snoc_both weights p 1 b l,
        all-append is_ascii_digit p (b ∷ []),
      )
      (ground (arith, last_digit (dot weights p) b h))

-- Eleven bytes, taken apart.
check_bytes :
    (bs : List ℕ)
    → length bs ≡ 11
    → All IsByte bs
    → finish (weigh weights bs 0) (get_elem? bs 10) ≡ some (is_pesel bs)
check_bytes bs l hb =
    let (p, b, e, m) = snoc-cases 10 bs l in
    let at : get_elem? (p ++ b ∷ []) 10 ≡ some b =
      subst (λ n. get_elem? (p ++ b ∷ []) n ≡ some b) m (get_elem?-snoc p b) in
    rw (e, at) (check_snoc p b m (rw e at hb) (All-last IsByte p b (rw e at hb)))

-- On every text the check is total: it accepts exactly the texts of eleven bytes, all of them
-- digits, whose weighted sum with the check digit is a multiple of 10, and rejects every other.
pub pesel_check-eq-is_pesel :
    (t : Text) → IsText t → pesel_check t ≡ some (byte_len t == 11 && is_pesel (as_bytes t))
unfolding pesel_check
pesel_check-eq-is_pesel t h = elim (Bool-cases (byte_len t == 11)) [
  | inl e ↦ rw e (
      check_bytes (as_bytes t) (omega (arith, length-as_bytes t, (==_iff (byte_len t) 11).0 e))
        (as_bytes-IsByte t h))
  | inr e ↦ rw e
]

weights_cancel : All (Cancels 10) full_weights
weights_cancel =
    (one, (three, (seven, (nine, (one, (three, (seven, (nine, (one, (three, (one, tt)))))))))))
  where
    one : Cancels 10 1
    one x a b ha hb e f = omega arith

    three : Cancels 10 3
    three x a b ha hb e f = omega arith

    seven : Cancels 10 7
    seven x a b ha hb e f = omega arith

    nine : Cancels 10 9
    nine x a b ha hb e f = omega arith

pesel_check-digits :
    (t : Text)
    → all is_ascii_digit t ≡ true
    → pesel_check t ≡ some (length t == 11 && dot full_weights t % 10 == 0)
unfolding is_pesel
pesel_check-digits t h =
    let ascii = digits-ascii t h in
    rw (
      pesel_check-eq-is_pesel t (digits-IsText t h),
      byte_len-ascii t ascii,
      as_bytes-ascii t ascii,
      h,
    )

accepted_digits :
    (t : Text)
    → all is_ascii_digit t ≡ true
    → pesel_check t ≡ some true
    → (length t ≡ 11) × (dot full_weights t % 10 ≡ 0)
accepted_digits t h e = ground (arith, pesel_check-digits t h)

rejected_digits :
    (t : Text)
    → all is_ascii_digit t ≡ true
    → dot full_weights t % 10 ≢ 0
    → pesel_check t ≡ some false
rejected_digits t h ne = ground (arith, pesel_check-digits t h)

-- No national number stays valid when one of its digits is replaced by another digit.
pub pesel_check-substitution :
    (p q : Text) (a b : ℕ)
    → all is_ascii_digit (p ++ a ∷ q) ≡ true
    → is_ascii_digit b ≡ true
    → a ≢ b
    → pesel_check (p ++ a ∷ q) ≡ some true
    → pesel_check (p ++ b ∷ q) ≡ some false
pesel_check-substitution p q a b digits hb ne e =
    let (l, sum) = accepted_digits (p ++ a ∷ q) digits e in
    rejected_digits (p ++ b ∷ q) (all-middle is_ascii_digit p q a b digits hb) (
      dot-substitution 10 full_weights p q a b (omega arith) weights_cancel
        (all-at is_ascii_digit p q a digits) hb ne sum)
