-- ===== src/Manager/World/Answers.antt =====
-- Chains of queries that answered: what each step gave, whichever queries failed.
use scrooge_dlp.Common.{
  Bool, true, false, Option, none, some, ◌≡◌, refl, ap, Outcome, ok, err, if◌then◌else◌,
}
use scrooge_dlp.Manager.World.{
  World, Faults, fails_now, later, Action, lift, attempt, query, select, pure, ◌>>=◌,
}

-- The chain ends in this answer and this world.
pub record Answers {E A : Type 0} (m : Action E A) (fs : Faults) (w : World) (a : A) (w' : World)
    : Type 0 where
  pub left : Faults
  pub run : m fs w ≡ (ok a, left, w')

-- The first step of the chain answered, and the rest went on from there.
pub record Stepped {E A B : Type 0} (m : Action E A) (f : A → Action E B) (fs : Faults) (w : World)
    (b : B) (w' : World) : Type 0 where
  pub value : A
  pub faults : Faults
  pub world : World
  pub first : Answers m fs w value world
  pub rest : Answers (f value) faults world b w'

pub bind-Answers :
    {E A B : Type 0} (m : Action E A) (f : A → Action E B) (fs : Faults) (w : World) (b : B)
    (w' : World)
    → Answers (m >>= f) fs w b w'
    → Stepped m f fs w b w'
unfolding ◌>>=◌
bind-Answers {E} {A} {B} m f fs w b w' h = go (m fs w) refl h.run
  where
    go :
        (r : Outcome E A × Faults × World)
        → m fs w ≡ r
        → (elim r.0 as (λ o'. Outcome E B × Faults × World) [
          | ok a ↦ f a r.1 r.2
          | err e ↦ (err e, r.1, r.2)
        ])
          ≡ (ok b, h.left, w')
        → Stepped m f fs w b w'
    go (ok a, fs1, w1) e k = record {
      value = a;
      faults = fs1;
      world = w1;
      first = record { left = fs1; run = e };
      rest = record { left = h.left; run = k };
    }
    go (err x, fs1, w1) e k = absurd (cc (ap (λ y. y.0) k))

-- What follows from the first step and the rest follows from the chain.
pub after :
    {E A B : Type 0} {C : Type 0} (m : Action E A) (f : A → Action E B) (fs : Faults) (w : World)
    (b : B) (w' : World)
    → Answers (m >>= f) fs w b w'
    → ((a : A) (gs : Faults) (v : World) → Answers m fs w a v → Answers (f a) gs v b w' → C)
    → C
after m f fs w b w' h k =
    let s = bind-Answers m f fs w b w' h in k s.value s.faults s.world s.first s.rest

module _ {E A : Type 0} {fs : Faults} {w w' : World} {a : A} where
  pub lift-Answers : (r : Outcome E A) → Answers (lift r) fs w a w' → (r ≡ ok a) × (w ≡ w')
  unfolding lift
  lift-Answers r h = (ap (λ x. x.0) h.run, ap (λ x. x.2) h.run)

  pub pure-Answers : (b : A) → Answers {E = E} (pure b) fs w a w' → (b ≡ a) × (w ≡ w')
  unfolding pure
  pure-Answers b h = (cc (ap (λ x. x.0) h.run), ap (λ x. x.2) h.run)

  pub query-Answers :
      (f : World → Option (A × World)) (e : E) → Answers (query f e) fs w a w' → f w ≡ some (a, w')
  unfolding query
  query-Answers f e h = by_fault (fails_now fs) h.run
    where
      by_row :
          (o : Option (A × World))
          → f w ≡ o
          → ◌≡◌ {A = Outcome E A × Faults × World}
              ((attempt o e w).0, later fs, (attempt o e w).1)
              (ok a, h.left, w')
          → f w ≡ some (a, w')
      by_row none p k = absurd (cc (ap (λ x. x.0) k))
      by_row (some (b, v)) p k =
          let same : b ≡ a = cc (ap (λ x. x.0) k) in
          let world : v ≡ w' = ap (λ x. x.2) k in cc (p, same, world)

      by_fault :
          (b : Bool)
          → ◌≡◌ {A = Outcome E A × Faults × World}
              (if b
                then (err e, later fs, w)
                else (let (r, v) = attempt (f w) e w in (r, later fs, v)))
              (ok a, h.left, w')
          → f w ≡ some (a, w')
      by_fault true k = absurd (cc (ap (λ x. x.0) k))
      by_fault false k = by_row (f w) refl k

  pub select-Answers :
      (f : World → A) (e : E) → Answers (select f e) fs w a w' → (f w ≡ a) × (w ≡ w')
  unfolding select
  select-Answers f e h =
      let found = query-Answers (λ w. some (f w, w)) e h in
      let both : ◌≡◌ {A = A × World} (f w, w) (a, w') = cc found in
      (ap (λ x. x.0) both, ap (λ x. x.1) both)
