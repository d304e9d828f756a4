-- ===== src/Manager/World/Hoare.antt =====
-- Chains of queries under a condition before and conditions after, one for each way to end,
-- whichever queries fail.
use scrooge_dlp.Common.{
  subst, Bool, true, false, Option, none, some, ◌≡◌, refl, Outcome, ok, err, if◌then◌else◌, [], ◌∷◌,
  ok_or, ◌⊎◌, inl, inr,
}
use scrooge_dlp.Manager.World.{
  World, Faults, fails_now, later, Action, pure, lift, attempt, query, select, execute, modify,
  ◌>>=◌,
}

abbrev pub After :
    {E A : Type 0} → (A → World → Type 0) → (World → Type 0) → Outcome E A × Faults × World → Type 0
After Q R r = elim r.0 [ ok a ↦ Q a r.2 | err e ↦ R r.2 ]

-- From a world with `P` the chain ends well in `Q`, or in an error with `R`.
pub record Hoare {E A : Type 0} (P : World → Type 0) (m : Action E A) (Q : A → World → Type 0)
    (R : World → Type 0) : Type 0 where
  pub run : (fs : Faults) (w : World) → P w → After Q R (m fs w)

module _ {E A : Type 0} (P : World → Type 0) (R : World → Type 0) where
  pub Hoare-pure :
      (Q : A → World → Type 0) (a : A) → ((w : World) → P w → Q a w) → Hoare {E = E} P (pure a) Q R
  unfolding pure
  Hoare-pure Q a h = record { run = λ fs w p. h w p }

  pub Hoare-lift :
      (Q : A → World → Type 0) (r : Outcome E A)
      → ((w : World) (a : A) → P w → r ≡ ok a → Q a w)
      → ((w : World) → P w → R w)
      → Hoare P (lift r) Q R
  unfolding lift
  Hoare-lift Q (ok a) h k = record { run = λ fs w p. h w a p refl }
  Hoare-lift Q (err e) h k = record { run = λ fs w p. k w p }

  pub Hoare-query :
      (Q : A → World → Type 0) (f : World → Option (A × World)) (e : E)
      → ((w w' : World) (a : A) → P w → f w ≡ some (a, w') → Q a w')
      → ((w : World) → P w → R w)
      → Hoare P (query f e) Q R
  unfolding query
  Hoare-query Q f e h k = record { run = λ fs w p. by_fault fs w p (fails_now fs) }
    where
      by_answer :
          (fs : Faults) (w : World) (p : P w) (o : Option (A × World))
          → f w ≡ o
          → After Q R (let (r, w') = attempt o e w in (r, later fs, w'))
      by_answer fs w p none h' = k w p
      by_answer fs w p (some (a, w')) h' = h w w' a p h'

      by_fault :
          (fs : Faults) (w : World) (p : P w) (b : Bool)
          → After Q R (
              if b
              then (err e, later fs, w)
              else (let (r, w') = attempt (f w) e w in (r, later fs, w')))
      by_fault fs w p true = k w p
      by_fault fs w p false = by_answer fs w p (f w) refl

  pub Hoare-select :
      (Q : A → World → Type 0) (f : World → A) (e : E)
      → ((w : World) → P w → Q (f w) w)
      → ((w : World) → P w → R w)
      → Hoare P (select f e) Q R
  unfolding select query
  Hoare-select Q f e h k = Hoare-query Q (λ w. some (f w, w)) e (λ w w' a p eq. found w w' a p eq) k
    where
      found :
          (w w' : World) (a : A)
          → P w
          → ◌≡◌ {A = Option (A × World)} (some (f w, w)) (some (a, w'))
          → Q a w'
      found w w' a p eq =
          let same : ◌≡◌ {A = A × World} (f w, w) (a, w') = cc eq in
          subst (λ (x : A × World). Q x.0 x.1) same (h w p)

module _ {E : Type 0} (P R : World → Type 0) where
  pub Hoare-execute :
      (Q : World → Type 0) (f : World → World) (e : E)
      → ((w : World) → P w → Q (f w))
      → ((w : World) → P w → R w)
      → Hoare P (execute f e) (λ u. Q) R
  unfolding execute query
  Hoare-execute Q f e h k =
      Hoare-query P R (λ u. Q) (λ w. some (tt, f w)) e (λ w w' a p eq. stored w w' a p eq) k
    where
      stored :
          (w w' : World) (a : Unit {0})
          → P w
          → ◌≡◌ {A = Option (Unit {0} × World)} (some (tt, f w)) (some (a, w'))
          → Q w'
      stored w w' a p eq =
          let same : ◌≡◌ {A = Unit {0} × World} (tt, f w) (a, w') = cc eq in
          subst (λ (x : Unit {0} × World). Q x.1) same (h w p)

  pub Hoare-modify :
      (Q : World → Type 0) (f : World → World)
      → ((w : World) → P w → Q (f w))
      → Hoare {E = E} P (modify f) (λ u. Q) R
  unfolding modify
  Hoare-modify Q f h = record { run = λ fs w p. h w p }

pub Hoare-bind :
    {E A B : Type 0} (P : World → Type 0) (Q : A → World → Type 0) (S : B → World → Type 0)
    (R : World → Type 0) (m : Action E A) (f : A → Action E B)
    → Hoare P m Q R
    → ((a : A) → Hoare (Q a) (f a) S R)
    → Hoare P (m >>= f) S R
unfolding ◌>>=◌
Hoare-bind {E = E} {A = A} {B = B} P Q S R m f hm hf = record {
  run = λ fs w p. go (m fs w) (hm.run fs w p);
}
  where
    go :
        (r : Outcome E A × Faults × World)
        → After Q R r
        → After S R (
            let (o, fs, w) = r in
            elim o as (λ o'. Outcome E B × Faults × World) [
              | ok a ↦ f a fs w
              | err e ↦ (err e, fs, w)
            ])
    go (ok a, fs, w) q = (hf a).run fs w q
    go (err e, fs, w) q = q

module _ {E A : Type 0} {P : World → Type 0} {Q : A → World → Type 0} {R : World → Type 0}
    {m : Action E A} where
  -- Errors need no condition where only an answer matters.
  pub Hoare-answer : Hoare P m Q R → Hoare P m Q (λ w. Unit {0})
  Hoare-answer h = record { run = λ fs w p. forget (m fs w) (h.run fs w p) }
    where
      forget : (r : Outcome E A × Faults × World) → After Q R r → After Q (λ w. Unit {0}) r
      forget (ok a, fs, w) q = q
      forget (err e, fs, w) q = tt

  pub Hoare-ok :
      Hoare P m Q R → (fs : Faults) (w : World) (a : A) → P w → (m fs w).0 ≡ ok a → Q a (m fs w).2
  Hoare-ok h fs w a p e = answer (m fs w) (h.run fs w p) e
    where
      answer : (r : Outcome E A × Faults × World) → After Q R r → r.0 ≡ ok a → Q a r.2
      answer (ok b, fs', w') q k = subst (λ c. Q c w') (cc k) q
      answer (err b, fs', w') q k = absurd (cc k)

-- A chain that asks for a row that is not there ends in one of its two errors.
pub select-missing :
    {E A B : Type 0} (f : World → Option A) (e missing : E) (k : A → Action E B) (fs : Faults)
    (w : World)
    → f w ≡ none
    → let answer = ((select f e >>= λ row. lift (ok_or row missing) >>= k) fs w).0 in
      (answer ≡ err missing) ⊎ (answer ≡ err e)
unfolding select query lift ◌>>=◌
select-missing f e missing k [] w h = inl (rw h)
select-missing f e missing k (true ∷ fs) w h = inr refl
select-missing f e missing k (false ∷ fs) w h = inl (rw h)
