-- ===== src/Common/Sort.antt =====
-- `ORDER BY`: a list sorted by a comparison.
use scrooge_dlp.Common.Tests.{if◌then◌else◌, Bool-cases}
use scrooge_dlp.Common.Lists.{any, filter, All, All-map, All-take, take, drop, length}
use Prim.Native.Nat.{ℕ, zero, suc}
use native.Mathlib.Omega.{arith}
use mathlib.Core.Path.{◌≡◌, refl, ap, ◌∙◌}
use mathlib.Core.Logic.{inl, inr}
use mathlib.Core.Bool.{Bool, true, false, ◌||◌}
use mathlib.Core.List.{List, [], ◌∷◌}

module _ {ℓ} {A : Type ℓ} where
  abbrev pub insert_by : (A → A → Bool) → A → List A → List A
  insert_by before x [] = x ∷ []
  insert_by before x (y ∷ ys) = if before x y then x ∷ y ∷ ys else y ∷ insert_by before x ys

  unfoldable pub sort_by : (A → A → Bool) → List A → List A
  sort_by before [] = []
  sort_by before (x ∷ xs) = insert_by before x (sort_by before xs)

module _ {A : Type 0} (prior : A → A → Bool) where
  pub any-insert_by :
      (p : A → Bool) (x : A) (xs : List A) → any p (insert_by prior x xs) ≡ (p x || any p xs)
  any-insert_by p x [] = refl
  any-insert_by p x (y ∷ ys) = ground (arith, any-insert_by p x ys)

  pub any-sort_by : (p : A → Bool) (xs : List A) → any p (sort_by prior xs) ≡ any p xs
  unfolding sort_by
  any-sort_by p [] = refl
  any-sort_by p (x ∷ xs) = any-insert_by p x (sort_by prior xs) ∙ rw (any-sort_by p xs)

  pub All-insert_by :
      (P : A → Type 0) (x : A) (xs : List A) → P x → All P xs → All P (insert_by prior x xs)
  All-insert_by P x [] h k = (h, tt)
  All-insert_by P x (y ∷ ys) h k = elim (Bool-cases (prior x y)) [
    | inl e ↦ rw e (h, k)
    | inr e ↦ rw e (k.0, All-insert_by P x ys h k.1)
  ]

  pub All-sort_by : (P : A → Type 0) (xs : List A) → All P xs → All P (sort_by prior xs)
  unfolding sort_by
  All-sort_by P [] h = tt
  All-sort_by P (x ∷ xs) h = All-insert_by P x (sort_by prior xs) h.0 (All-sort_by P xs h.1)

  pub length-sort_by : (xs : List A) → length (sort_by prior xs) ≡ length xs
  unfolding sort_by
  length-sort_by [] = refl
  length-sort_by (x ∷ xs) = inserted x (sort_by prior xs) ∙ ap suc (length-sort_by xs)
    where
      inserted : (y : A) (ys : List A) → length (insert_by prior y ys) ≡ suc (length ys)
      inserted y [] = refl
      inserted y (z ∷ zs) = ground (arith, inserted y zs)

  pub count-insert_by :
      (p : A → Bool) (x : A) (xs : List A)
      → length (filter p (insert_by prior x xs)) ≡ length (filter p (x ∷ xs))
  count-insert_by p x [] = refl
  count-insert_by p x (y ∷ ys) = ground (arith, count-insert_by p x ys)

  -- Sorting keeps how often what fits a test occurs.
  pub count-sort_by :
      (p : A → Bool) (xs : List A) → length (filter p (sort_by prior xs)) ≡ length (filter p xs)
  unfolding sort_by
  count-sort_by p [] = refl
  count-sort_by p (x ∷ xs) =
      count-insert_by p x (sort_by prior xs) ∙ ground (arith, count-sort_by p xs)

  -- No element stands before one that is to come before it.
  abbrev pub Sorted : List A → Type 0
  Sorted [] = Unit
  Sorted (x ∷ xs) = All (λ y. prior y x ≡ false) xs × Sorted xs

  pub Sorted-take : (n : ℕ) (xs : List A) → Sorted xs → Sorted (take n xs)
  Sorted-take zero xs h = tt
  Sorted-take (suc n) [] h = tt
  Sorted-take (suc n) (x ∷ xs) h = (All-take _ n xs h.0, Sorted-take n xs h.1)

  pub Sorted-drop : (n : ℕ) (xs : List A) → Sorted xs → Sorted (drop n xs)
  Sorted-drop zero xs h = h
  Sorted-drop (suc n) [] h = tt
  Sorted-drop (suc n) (x ∷ xs) h = Sorted-drop n xs h.1

  module _ (irreflexive : (x : A) → prior x x ≡ false)
      (law : (x y z : A) → prior x y ≡ true → prior z y ≡ false → prior z x ≡ false) where
    insert_by-Sorted : (x : A) (xs : List A) → Sorted xs → Sorted (insert_by prior x xs)
    insert_by-Sorted x [] h = (tt, tt)
    insert_by-Sorted x (y ∷ ys) h = elim (Bool-cases (prior x y)) [
      | inl e ↦ rw e ((law x y y e (irreflexive y), All-map _ _ (λ z k. law x y z e k) ys h.0), h)
      | inr e ↦ rw e (All-insert_by (λ z. prior z y ≡ false) x ys e h.0, insert_by-Sorted x ys h.1)
    ]

    pub sort_by-Sorted : (xs : List A) → Sorted (sort_by prior xs)
    unfolding sort_by
    sort_by-Sorted [] = tt
    sort_by-Sorted (x ∷ xs) = insert_by-Sorted x (sort_by prior xs) (sort_by-Sorted xs)
