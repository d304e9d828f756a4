-- ===== src/Manager/World/Keeps.antt =====
-- Invariants of chains of queries, whichever queries fail: one rule for each way to build a chain.
use scrooge_dlp.Common.{◌≡◌, Option, some, Outcome, ok, err}
use scrooge_dlp.Manager.World.{
  World, Faults, Action, pure, lift, query, select, execute, modify, ◌>>=◌,
}
use scrooge_dlp.Manager.World.Hoare.{
  After, Hoare, Hoare-pure, Hoare-lift, Hoare-query, Hoare-select, Hoare-execute, Hoare-modify,
  Hoare-bind,
}

-- The chain keeps `P`, however it ends.
pub record Keeps {E A : Type 0} (P : World → Type 0) (m : Action E A) : Type 0 where
  pub triple : Hoare P m (λ a. P) P

After-kept :
    {E A : Type 0} (P : World → Type 0) (r : Outcome E A × Faults × World)
    → After (λ a. P) P r
    → P r.2
After-kept P (ok a, fs, w) h = h
After-kept P (err e, fs, w) h = h

pub Keeps-at :
    {E A : Type 0} {P : World → Type 0} {m : Action E A}
    → Keeps P m
    → (fs : Faults) (w : World) → P w
    → P (m fs w).2
Keeps-at {P = P} {m = m} k fs w h = After-kept P (m fs w) (k.triple.run fs w h)

module _ {E A : Type 0} {P : World → Type 0} where
  pub Keeps-pure : (a : A) → Keeps {E = E} P (pure a)
  Keeps-pure a = record { triple = Hoare-pure P P (λ b. P) a (λ w h. h) }

  pub Keeps-lift : (r : Outcome E A) → Keeps P (lift r)
  Keeps-lift r = record { triple = Hoare-lift P P (λ b. P) r (λ w a h e. h) (λ w h. h) }

  pub Keeps-query :
      (f : World → Option (A × World)) (e : E)
      → ((w w' : World) (a : A) → P w → f w ≡ some (a, w') → P w')
      → Keeps P (query f e)
  Keeps-query f e h = record { triple = Hoare-query P P (λ b. P) f e h (λ w p. p) }

  pub Keeps-select : (f : World → A) (e : E) → Keeps P (select f e)
  Keeps-select f e = record { triple = Hoare-select P P (λ b. P) f e (λ w h. h) (λ w h. h) }

module _ {E : Type 0} {P : World → Type 0} where
  pub Keeps-execute :
      (f : World → World) (e : E) → ((w : World) → P w → P (f w)) → Keeps P (execute f e)
  Keeps-execute f e h = record { triple = Hoare-execute P P P f e h (λ w p. p) }

  pub Keeps-modify :
      (f : World → World) → ((w : World) → P w → P (f w)) → Keeps {E = E} P (modify f)
  Keeps-modify f h = record { triple = Hoare-modify P P P f h }

pub Keeps-bind :
    {E A B : Type 0} {P : World → Type 0} (m : Action E A) (f : A → Action E B)
    → Keeps P m
    → ((a : A) → Keeps P (f a))
    → Keeps P (m >>= f)
Keeps-bind {P = P} m f km kf = record {
  triple = Hoare-bind P (λ a. P) (λ b. P) P m f km.triple (λ a. (kf a).triple);
}

module _ {E A B : Type 0} {P : World → Type 0} where
  -- The rest of the chain may use that `r` was no error.
  pub Keeps-bind-lift :
      (r : Outcome E A) (f : A → Action E B)
      → ((a : A) → r ≡ ok a → Keeps P (f a))
      → Keeps P (lift r >>= f)
  Keeps-bind-lift r f kf = record {
    triple =
        Hoare-bind P (λ a w. (r ≡ ok a) × P w) (λ b. P) P (lift r) f
          (Hoare-lift P P (λ a w. (r ≡ ok a) × P w) r (λ w a p e. (e, p)) (λ w p. p))
          (λ a. record { run = λ fs w h. (kf a h.0).triple.run fs w h.1 });
  }

  -- The rest of the chain may use what the invariant says of the rows that were found.
  pub Keeps-bind-select :
      (C : A → Type 0) (g : World → A) (e : E) (f : A → Action E B)
      → ((w : World) → P w → C (g w))
      → ((a : A) → C a → Keeps P (f a))
      → Keeps P (select g e >>= f)
  Keeps-bind-select C g e f found kf = record {
    triple =
        Hoare-bind P (λ a w. C a × P w) (λ b. P) P (select g e) f
          (Hoare-select P P (λ a w. C a × P w) g e (λ w p. (found w p, p)) (λ w p. p))
          (λ a. record { run = λ fs w h. (kf a h.0).triple.run fs w h.1 });
  }

pub ruleset keeps_rules = (
  Keeps-pure, Keeps-lift, Keeps-select, Keeps-query, Keeps-execute, Keeps-modify, Keeps-bind-lift,
  Keeps-bind,
)
