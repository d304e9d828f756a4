-- ===== src/Manager/Enroll/Bound.antt =====
-- grpc.rs, `enroll`: how many requests a token with a bound admits.
use scrooge_dlp.Common.{
  ℕ, String, false, some, List, [], ◌∷◌, ◌+◌, ◌≡◌, ◌≤◌, ap, ◌∙◌, subst, arith, if◌then◌else◌,
  str_eq, eq_iff, ◌&&◌, leb, find, Bool-cases, inl, inr,
}
use scrooge_dlp.Manager.World.{World, TokenRow}
use scrooge_dlp.Manager.Enroll.Effect.{is_ok, find-count_use_other, enroll-effect}
use scrooge_dlp.Manager.Enroll.{
  Authority, EnrollRequest, find-count_use, is_token, is_spent, count_use, enroll,
}

-- How many of these requests, one after another, bear the token of this hash and are admitted, where
-- no query fails. Each comes with what it takes from outside.
abbrev pub admitted : String → List (Authority × EnrollRequest) → World → ℕ
admitted hash [] w = 0
admitted hash ((ca, req) ∷ rs) w =
    let rest = admitted hash rs (enroll ca req [] w).2 in
    if is_ok (enroll ca req [] w).0 && str_eq (ca.sha256_hex req.enrollment_token) hash
    then rest + 1
    else rest

module _ (hash : String) (n : ℕ) where
  -- The bound of the token, and the uses that are counted.
  pub record Holds (w : World) (used : ℕ) : Type 0 where
    pub row : TokenRow
    pub found : find (is_token hash) w.tokens ≡ some row
    pub bound : row.max_uses ≡ some n
    pub uses : row.uses_count ≡ used
    pub within : used ≤ n

  Holds-kept : (w v : World) (used : ℕ) → v.tokens ≡ w.tokens → Holds w used → Holds v used
  Holds-kept w v used same h = record {
    row = h.row;
    found = ap (find (is_token hash)) same ∙ h.found;
    bound = h.bound;
    uses = h.uses;
    within = h.within;
  }

  Holds-other :
      (w v : World) (used : ℕ) (other : String)
      → str_eq other hash ≡ false
      → v.tokens ≡ count_use other w.tokens
      → Holds w used
      → Holds v used
  Holds-other w v used other ne same h = record {
    row = h.row;
    found = ap (find (is_token hash)) same ∙ find-count_use_other hash other w.tokens ne ∙ h.found;
    bound = h.bound;
    uses = h.uses;
    within = h.within;
  }

  unspent-lt : (t : TokenRow) → t.max_uses ≡ some n → is_spent t ≡ false → t.uses_count + 1 ≤ n
  unspent-lt t e h = let below : leb n t.uses_count ≡ false = rw e at h in ground arith

  Holds-counted :
      (w v : World) (used : ℕ) (t : TokenRow)
      → find (is_token hash) w.tokens ≡ some t
      → is_spent t ≡ false
      → v.tokens ≡ count_use hash w.tokens
      → Holds w used
      → Holds v (used + 1)
  Holds-counted w v used t found unspent same h =
      let row : t ≡ h.row = cc (found, h.found) in
      let below = unspent-lt h.row h.bound (subst (λ x. is_spent x ≡ false) row unspent) in
      record {
        row = record h.row { uses_count = h.row.uses_count + 1 };
        found = ap (find (is_token hash)) same ∙ find-count_use hash w.tokens h.row h.found;
        bound = h.bound;
        uses = ap (λ k. k + 1) h.uses;
        within = omega (arith, below, h.uses);
      }

  -- No more requests with the token are admitted than it has uses left.
  pub admitted_within :
      (rs : List (Authority × EnrollRequest)) (w : World) (used : ℕ)
      → Holds w used
      → admitted hash rs w + used ≤ n
  admitted_within [] w used h = (omega (arith, h.within))
  admitted_within ((ca, req) ∷ rs) w used h =
      let v = (enroll ca req [] w).2 in
      let other = ca.sha256_hex req.enrollment_token in
      elim (enroll-effect ca req w) [
        | inl x ↦ rw x.not_ok (admitted_within rs v used (Holds-kept w v used x.kept h))
        | inr x ↦ elim (Bool-cases (str_eq other hash)) [
          | inl e ↦
              (let same : other ≡ hash = (eq_iff other hash).0 e in
                let went =
                  Holds-counted w v used x.row
                    (subst (λ y. find (is_token y) w.tokens ≡ some x.row) same x.found) x.unspent
                    (x.counted ∙ ap (λ y. count_use y w.tokens) same) h in
                let rest = admitted_within rs v (used + 1) went in
                elim (Bool-cases (is_ok (enroll ca req [] w).0)) [
                  | inl o ↦ rw (o, e) (omega (arith, rest))
                  | inr o ↦ rw o (omega (arith, rest))
                ])
          | inr e ↦
              (let went = Holds-other w v used other e x.counted h in
                let rest = admitted_within rs v used went in
                elim (Bool-cases (is_ok (enroll ca req [] w).0)) [
                  | inl o ↦ rw (o, e) rest
                  | inr o ↦ rw o rest
                ])
        ]
      ]
