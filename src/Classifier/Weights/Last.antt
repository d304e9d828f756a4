-- ===== src/Classifier/Weights/Last.antt =====
-- The byte behind the weighted ones, which classifier/pesel.rs and classifier/nip.rs compare with
-- the checksum: a list of bytes split into the weighted ones and that last one.
use scrooge_dlp.Common.{
  ℕ, zero, suc, some, List, [], ◌∷◌, ◌++◌, ◌≡◌, refl, arith, ap, ◌+◌, ◌-◌, ◌*◌, length, take, all,
  get_elem?, length-append, if◌then◌else◌, All, ◌≤◌, ◌<◌, ◌^◌,
}
use native.Mathlib.Nat.{add_assoc, zero-add}
use scrooge_dlp.Common.Text.{is_ascii_digit}
use scrooge_dlp.Classifier.Weights.{total, not_digit, weigh, dot, weigh-eq-dot, IsByte}

pub snoc-cases :
    (n : ℕ) (bs : List ℕ)
    → length bs ≡ suc n
    → (p : List ℕ) × (b : ℕ) × (bs ≡ p ++ b ∷ []) × (length p ≡ n)
snoc-cases n [] l = absurd (omega arith)
snoc-cases zero (x ∷ []) l = ([], x, refl, refl)
snoc-cases zero (x ∷ y ∷ bs) l = absurd (omega arith)
snoc-cases (suc n) (x ∷ []) l = absurd (omega arith)
snoc-cases (suc n) (x ∷ y ∷ bs) l =
    let (p, b, e, m) = snoc-cases n (y ∷ bs) (omega arith) in
    (x ∷ p, b, ap (λ r. x ∷ r) e, omega arith)

take-snoc : (p : List ℕ) (b : ℕ) → take (length p) (p ++ b ∷ []) ≡ p
take-snoc [] b = refl
take-snoc (x ∷ p) b = ap (λ r. x ∷ r) (take-snoc p b)

pub get_elem?-snoc : (p : List ℕ) (b : ℕ) → get_elem? (p ++ b ∷ []) (length p) ≡ some b
get_elem?-snoc [] b = refl
get_elem?-snoc (x ∷ p) b = get_elem?-snoc p b

dot-snoc : (ws p : List ℕ) (b : ℕ) → length p ≡ length ws → dot ws (p ++ b ∷ []) ≡ dot ws p
unfolding dot
dot-snoc [] p b l = refl
dot-snoc (w ∷ ws) [] b l = absurd (omega arith)
dot-snoc (w ∷ ws) (x ∷ p) b l = ap (λ n. (x - 48) * w + n) (dot-snoc ws p b (omega arith))

pub dot-snoc_both :
    (ws p : List ℕ) (k b : ℕ)
    → length p ≡ length ws
    → dot (ws ++ k ∷ []) (p ++ b ∷ []) ≡ dot ws p + (b - 48) * k
unfolding dot
dot-snoc_both [] [] k b l = omega arith
dot-snoc_both [] (x ∷ p) k b l = absurd (omega arith)
dot-snoc_both (w ∷ ws) [] k b l = absurd (omega arith)
dot-snoc_both (w ∷ ws) (x ∷ p) k b l =
    rw (dot-snoc_both ws p k b (omega arith), add_assoc ((x - 48) * w))

-- The loop over the weights, with one byte more than there are weights.
pub weigh-snoc :
    (ws p : List ℕ) (b : ℕ)
    → length p ≡ length ws
    → All IsByte (p ++ b ∷ [])
    → All (λ w. w ≤ 9) ws
    → 81 * length ws < 2 ^ 32
    → weigh ws (p ++ b ∷ []) 0 ≡ (if all is_ascii_digit p then total (dot ws p) else not_digit)
weigh-snoc ws p b l hb hw room = rw (
  weigh-eq-dot ws (p ++ b ∷ []) 0 (omega (arith, length-append {0} p (b ∷ []))) hb hw (omega arith),
  ← l,
  take-snoc p b,
  zero-add,
  dot-snoc ws p b l,
)
