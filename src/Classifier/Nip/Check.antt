-- ===== src/Classifier/Nip/Check.antt =====
-- classifier/nip.rs, `nip_check`, against the rule for the number: modulo 11 the nine weighted
-- digits come to the tenth.
use scrooge_dlp.Common.{
  ℕ, Bool, true, false, some, List, [], ◌∷◌, ◌++◌, ◌≡◌, ◌≢◌, subst, arith, ◌==◌, ◌&&◌, ◌≤◌, ◌<◌,
  ◌+◌, ◌-◌, ◌*◌, ◌%◌, if◌then◌else◌, length, all, All, All-last, all-middle, all-at, all-append,
  get_elem?, Bool-cases, inl, inr, ==_iff,
}
use scrooge_dlp.Common.Text.{
  Text, IsText, as_bytes, byte_len, is_ascii_digit, length-as_bytes, as_bytes-IsByte, digits-ascii,
  digits-IsText, as_bytes-ascii, byte_len-ascii,
}
use scrooge_dlp.Classifier.Weights.{IsByte, sub_u8, weigh, dot, Cancels, dot-substitution}
use scrooge_dlp.Classifier.Weights.Last.{snoc-cases, get_elem?-snoc, dot-snoc_both, weigh-snoc}
use scrooge_dlp.Classifier.Nip.{weights, finish, nip_check}

-- The tenth digit weighs 10, which is -1 modulo 11.
abbrev pub full_weights : List ℕ
full_weights = 6 ∷ 5 ∷ 7 ∷ 2 ∷ 3 ∷ 4 ∷ 5 ∷ 6 ∷ 7 ∷ 10 ∷ []

unfoldable pub is_nip : List ℕ → Bool
is_nip bytes = all is_ascii_digit bytes && dot full_weights bytes % 11 == 0

weights_small : All (λ w. w ≤ 9) weights
weights_small = omega arith

-- No digit is 10, so the separate test for that checksum changes nothing.
last_digit :
    (sum b : ℕ)
    → b < 256
    → (if sum % 11 == 10 then false else sum % 11 == sub_u8 b 48)
      ≡ (is_ascii_digit b && (sum + (b - 48) * 10) % 11 == 0)
last_digit sum b h = ground arith

check_snoc :
    (p : List ℕ) (b : ℕ)
    → length p ≡ 9
    → All IsByte (p ++ b ∷ [])
    → b < 256
    → finish (weigh weights (p ++ b ∷ []) 0) (some b) ≡ some (is_nip (p ++ b ∷ []))
unfolding is_nip
check_snoc p b l hb h =
    rw
      (
        weigh-snoc weights p b l hb weights_small (omega arith),
        dot-snoc_both weights p 10 b l,
        all-append is_ascii_digit p (b ∷ []),
      )
      (ground (arith, last_digit (dot weights p) b h))

-- Ten bytes, taken apart.
check_bytes :
    (bs : List ℕ)
    → length bs ≡ 10
    → All IsByte bs
    → finish (weigh weights bs 0) (get_elem? bs 9) ≡ some (is_nip bs)
check_bytes bs l hb =
    let (p, b, e, m) = snoc-cases 9 bs l in
    let at : get_elem? (p ++ b ∷ []) 9 ≡ some b =
      subst (λ n. get_elem? (p ++ b ∷ []) n ≡ some b) m (get_elem?-snoc p b) in
    rw (e, at) (check_snoc p b m (rw e at hb) (All-last IsByte p b (rw e at hb)))

-- On every text the check is total: it accepts exactly the texts of ten bytes, all of them digits,
-- whose weighted sum, the tenth digit weighing 10, is a multiple of 11, and rejects every other.
pub nip_check-eq-is_nip :
    (t : Text) → IsText t → nip_check t ≡ some (byte_len t == 10 && is_nip (as_bytes t))
unfolding nip_check
nip_check-eq-is_nip t h = elim (Bool-cases (byte_len t == 10)) [
  | inl e ↦ rw e (
      check_bytes (as_bytes t) (omega (arith, length-as_bytes t, (==_iff (byte_len t) 10).0 e))
        (as_bytes-IsByte t h))
  | inr e ↦ rw e
]

weights_cancel : All (Cancels 11) full_weights
weights_cancel = (six, (five, (seven, (two, (three, (four, (five, (six, (seven, (ten, tt))))))))))
  where
    two : Cancels 11 2
    two x a b ha hb e f = omega arith

    three : Cancels 11 3
    three x a b ha hb e f = omega arith

    four : Cancels 11 4
    four x a b ha hb e f = omega arith

    five : Cancels 11 5
    five x a b ha hb e f = omega arith

    six : Cancels 11 6
    six x a b ha hb e f = omega arith

    seven : Cancels 11 7
    seven x a b ha hb e f = omega arith

    ten : Cancels 11 10
    ten x a b ha hb e f = omega arith

pub nip_check-digits :
    (t : Text)
    → all is_ascii_digit t ≡ true
    → nip_check t ≡ some (length t == 10 && dot full_weights t % 11 == 0)
unfolding is_nip
nip_check-digits t h =
    let ascii = digits-ascii t h in
    rw
      (nip_check-eq-is_nip t (digits-IsText t h), byte_len-ascii t ascii, as_bytes-ascii t ascii, h)

accepted_digits :
    (t : Text)
    → all is_ascii_digit t ≡ true
    → nip_check t ≡ some true
    → (length t ≡ 10) × (dot full_weights t % 11 ≡ 0)
accepted_digits t h e = ground (arith, nip_check-digits t h)

rejected_digits :
    (t : Text)
    → all is_ascii_digit t ≡ true
    → dot full_weights t % 11 ≢ 0
    → nip_check t ≡ some false
rejected_digits t h ne = ground (arith, nip_check-digits t h)

-- No tax number stays valid when one of its digits is replaced by another digit.
pub nip_check-substitution :
    (p q : Text) (a b : ℕ)
    → all is_ascii_digit (p ++ a ∷ q) ≡ true
    → is_ascii_digit b ≡ true
    → a ≢ b
    → nip_check (p ++ a ∷ q) ≡ some true
    → nip_check (p ++ b ∷ q) ≡ some false
nip_check-substitution p q a b digits hb ne e =
    let (l, sum) = accepted_digits (p ++ a ∷ q) digits e in
    rejected_digits (p ++ b ∷ q) (all-middle is_ascii_digit p q a b digits hb) (
      dot-substitution 11 full_weights p q a b (omega arith) weights_cancel
        (all-at is_ascii_digit p q a digits) hb ne sum)
