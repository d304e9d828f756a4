-- ===== src/Common/Results.antt =====
-- Rust's `Result<A, E>`, with `?` as bind.
use mathlib.Core.Path.{◌≡◌, refl}
use mathlib.Core.Logic.{◌⊎◌, inl, inr}
use mathlib.Core.Bool.{Bool, true, false}
use mathlib.Core.Option.{Option, none, some}

pub data Outcome (E A : Type 0) : Type 0 where
  ok : A → Outcome E A
  err : E → Outcome E A

module _ {E A : Type 0} where
  -- `Option::ok_or`
  abbrev pub ok_or : Option A → E → Outcome E A
  ok_or none e = err e
  ok_or (some a) e = ok a

-- `Result::map_err`
abbrev pub map_err : {E F A : Type 0} → (E → F) → Outcome E A → Outcome F A
map_err f (ok a) = ok a
map_err f (err e) = err (f e)

-- `if test { return Err(e) }`
abbrev pub err_if : {E : Type 0} → Bool → E → Outcome E (Unit {0})
err_if true e = err e
err_if false e = ok tt

-- `m?` followed by the rest
infixl 5 ◌>>=◌ ◌>>◌
abbrev pub ◌>>=◌ : {E A B : Type 0} → Outcome E A → (A → Outcome E B) → Outcome E B
ok a >>= f = f a
err e >>= f = err e

abbrev pub ◌>>◌ : {E B : Type 0} → Outcome E (Unit {0}) → Outcome E B → Outcome E B
m >> k = m >>= λ _. k

-- A chain that ends well has ended well at each step.
pub >>-eq-ok :
    {E B : Type 0} (m : Outcome E (Unit {0})) (k : Outcome E B) {b : B}
    → (m >> k) ≡ ok b
    → (m ≡ ok tt) × (k ≡ ok b)
>>-eq-ok (ok tt) k h = (refl, h)
>>-eq-ok (err e) k h = cc

pub err_if-eq-ok : {E : Type 0} (b : Bool) (e : E) → err_if b e ≡ ok tt → b ≡ false
err_if-eq-ok true e h = cc
err_if-eq-ok false e h = refl

pub >>-of-ok :
    {E B : Type 0} (m : Outcome E (Unit {0})) (k : Outcome E B) {b : B}
    → m ≡ ok tt
    → k ≡ ok b
    → (m >> k) ≡ ok b
>>-of-ok (ok tt) k h e = e
>>-of-ok (err e) k h e' = cc

pub err_if-of-false : {E : Type 0} (b : Bool) (e : E) → b ≡ false → err_if b e ≡ ok tt
err_if-of-false true e h = cc
err_if-of-false false e h = refl

pub Outcome-cases :
    {E A : Type 0} (r : Outcome E A) → ((e : E) × (r ≡ err e)) ⊎ ((a : A) × (r ≡ ok a))
Outcome-cases (err e) = inl (e, refl)
Outcome-cases (ok a) = inr (a, refl)

pub >>=-eq-ok :
    {E A B : Type 0} (m : Outcome E A) (f : A → Outcome E B) (b : B)
    → (m >>= f) ≡ ok b
    → (a : A) × (m ≡ ok a) × (f a ≡ ok b)
>>=-eq-ok (ok a) f b h = (a, refl, h)
>>=-eq-ok (err e) f b h = cc
