-- ===== src/Cli/Dir.antt =====
-- crates/scrooge-cli/src/main.rs: the directory that `init-ca` fills, with the steps on it that may
-- fail.
use scrooge_dlp.Common.{
  String, Bool, true, false, ◌||◌, Option, none, some, List, [], ◌∷◌, ◌≡◌, refl, sym, ap, Outcome,
  ok, err,
}
use scrooge_dlp.Certificates.{CaError}

-- A file, and whether its mode is 0600. A new file has the mode of the umask.
pub record File : Type 0 where
  pub text : String
  pub is_private : Bool

pub record CertDir : Type 0 where
  pub ca_pem : Option File
  pub ca_key : Option File
  pub server_pem : Option File
  pub server_key : Option File

pub data CliError : Type 0 where
  creating writing permissions config connecting migrating short_password hashing database
        panicked :
      CliError
  ca : CaError → CliError

abbrev pub exists {ℓ} : {A : Type ℓ} → Option A → Bool
exists none = false
exists (some a) = true

abbrev pub any_exists : CertDir → Bool
any_exists d = exists d.ca_pem || exists d.ca_key || exists d.server_pem || exists d.server_key

-- `std::fs::write`, which keeps the mode of a file that is there.
abbrev pub written : String → Option File → Option File
written t none = some (record { text = t; is_private = false })
written t (some f) = some (record f { text = t })

-- `set_permissions`
abbrev pub protected : Option File → Option File
protected none = none
protected (some f) = some (record f { is_private = true })

-- Steps on the directory, under a list that says which of them fail; past its end all work.
abbrev pub Steps : Type 0 → Type 0
Steps A = List Bool → CertDir → Outcome CliError A × List Bool × CertDir

unfoldable pub pure : {A : Type 0} → A → Steps A
pure a fs d = (ok a, fs, d)

unfoldable pub lift : {A : Type 0} → Outcome CliError A → Steps A
lift r fs d = (r, fs, d)

unfoldable pub look : Steps CertDir
look fs d = (ok d, fs, d)

unfoldable pub change : (CertDir → CertDir) → CliError → Steps (Unit {0})
change f e [] d = (ok tt, [], f d)
change f e (true ∷ fs) d = (err e, fs, d)
change f e (false ∷ fs) d = (ok tt, fs, f d)

infixl 5 ◌>>=◌ ◌>>◌
unfoldable pub ◌>>=◌ : {A B : Type 0} → Steps A → (A → Steps B) → Steps B
◌>>=◌ m f fs d =
    let (r, fs', d') = m fs d in elim r [ ok a ↦ f a fs' d' | err e ↦ (err e, fs', d') ]

abbrev pub ◌>>◌ : {B : Type 0} → Steps (Unit {0}) → Steps B → Steps B
m >> k = m >>= λ u. k

-- What follows from the first step and the rest of steps that ended well follows from these steps.
pub after :
    {A B : Type 0} {C : Type 0} (m : Steps A) (f : A → Steps B) (fs gs : List Bool) (d e : CertDir)
    (b : B)
    → (m >>= f) fs d ≡ (ok b, gs, e)
    → ((a : A) (hs : List Bool) (c : CertDir)
        → m fs d ≡ (ok a, hs, c)
        → f a hs c ≡ (ok b, gs, e)
        → C)
    → C
unfolding ◌>>=◌
after {A} {B} {C} m f fs gs d e b h k = go (m fs d) refl h
  where
    go :
        (x : Outcome CliError A × List Bool × CertDir)
        → m fs d ≡ x
        → (elim x.0 as (λ o. Outcome CliError B × List Bool × CertDir) [
          | ok a ↦ f a x.1 x.2
          | err e ↦ (err e, x.1, x.2)
        ])
          ≡ (ok b, gs, e)
        → C
    go (ok a, hs, c) first rest = k a hs c first rest
    go (err z, hs, c) first rest = absurd (cc (ap (λ y. y.0) rest))

pub change-ok :
    (f : CertDir → CertDir) (z : CliError) (fs hs : List Bool) (d c : CertDir) (u : Unit {0})
    → change f z fs d ≡ (ok u, hs, c)
    → c ≡ f d
unfolding change
change-ok f z [] hs d c u h = sym (ap (λ x. x.2) h)
change-ok f z (true ∷ fs) hs d c u h = absurd (cc (ap (λ x. x.0) h))
change-ok f z (false ∷ fs) hs d c u h = sym (ap (λ x. x.2) h)

pub lift-ok :
    {A : Type 0} (r : Outcome CliError A) (fs hs : List Bool) (d c : CertDir) (a : A)
    → lift r fs d ≡ (ok a, hs, c)
    → (r ≡ ok a) × (c ≡ d)
unfolding lift
lift-ok r fs hs d c a h = (ap (λ x. x.0) h, sym (ap (λ x. x.2) h))
