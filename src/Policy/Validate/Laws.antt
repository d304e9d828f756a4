-- ===== src/Policy/Validate/Laws.antt =====
-- `Policy::validate` against what a valid policy is.
use scrooge_dlp.Common.{
  String, Bool, true, false, Option, none, some, List, [], ◌∷◌, ◌++◌, ◌≡◌, ◌≢◌, ◌↔◌, refl, sym, ap,
  arith, >>-of-ok, err_if-of-false, not, ok, >>-eq-ok, err_if-eq-ok, is_empty, all, any, All,
  str_eq, eq_iff,
}
use scrooge_dlp.Common.Text.{codes}
use scrooge_dlp.Policy.Defs.{Conditions, Rule, Policy, RegexField}
use scrooge_dlp.Policy.Validate.{
  is_slug_char, is_slug, check_regex, check_conditions, validate_rule, validate_rules, validate,
}

-- A name of one or more lower-case letters, digits and dashes.
abbrev pub IsSlug : String → Type 0
IsSlug s = (codes s ≢ []) × All (λ c. is_slug_char c ≡ true) (codes s)

-- No rule has the id of another.
abbrev pub Distinct : List Rule → Type 0
Distinct [] = Unit
Distinct (r ∷ rs) = All (λ s. r.id ≢ s.id) rs × Distinct rs

module _ (compiles : String → Bool) where
  abbrev pub Compiles : Option String → Type 0
  Compiles none = Unit
  Compiles (some re) = compiles re ≡ true

  abbrev pub ConditionsCompile : Option Conditions → Type 0
  ConditionsCompile none = Unit
  ConditionsCompile (some c) = Compiles c.filename_regex × Compiles c.path_regex

  pub record IsValidRule (r : Rule) : Type 0 where
    pub id_slug : IsSlug r.id
    pub patterns : ConditionsCompile r.conditions

  pub record IsValidPolicy (p : Policy) : Type 0 where
    pub api : p.api_version ≡ "scroogedlp.io/v1"
    pub kind : p.kind ≡ "Policy"
    pub name_slug : IsSlug p.metadata.name
    pub rules_valid : All IsValidRule (p.rules.inbound ++ p.rules.outbound)
    pub rules_distinct : Distinct (p.rules.inbound ++ p.rules.outbound)

all_iff {ℓ} :
    {A : Type ℓ} (f : A → Bool) (xs : List A) → (all f xs ≡ true) ↔ All (λ x. f x ≡ true) xs
all_iff f [] = (λ h. tt, λ h. refl)
all_iff f (x ∷ xs) = (
  λ h. (ground arith, (all_iff f xs).0 (ground arith)),
  λ h. ground (arith, (all_iff f xs).1 h.1),
)

any-str_eq :
    (a : String) (seen : List String) → (any (str_eq a) seen ≡ false) ↔ All (λ s. a ≢ s) seen
any-str_eq a [] = (λ h. tt, λ h. refl)
any-str_eq a (s ∷ seen) = (
  λ h. (ground (arith, eq_iff a s), (any-str_eq a seen).0 (ground arith)),
  λ h. ground (arith, eq_iff a s, (any-str_eq a seen).1 h.1),
)

IsSlug-iff : (s : String) → ((is_empty (codes s) ≡ false) × (not (is_slug s) ≡ false)) ↔ IsSlug s
unfolding is_slug
IsSlug-iff s = (
  λ h. (nonempty s h.0, (all_iff is_slug_char (codes s)).0 (ground arith)),
  λ h. (empty s h.0, ground (arith, (all_iff is_slug_char (codes s)).1 h.1)),
)
  where
    nonempty : (s : String) → is_empty (codes s) ≡ false → codes s ≢ []
    nonempty s h e = cc (ap is_empty e)

    empty : (s : String) → codes s ≢ [] → is_empty (codes s) ≡ false
    empty s h = ground arith

equal_of_not : (s t : String) → not (str_eq s t) ≡ false → s ≡ t
equal_of_not s t h = ground (arith, eq_iff s t)

not_of_equal : (s t : String) → s ≡ t → not (str_eq s t) ≡ false
not_of_equal s t h = ground (arith, eq_iff s t)

module _ (compiles : String → Bool) where
  regex_iff :
      (re : Option String) (field : RegexField)
      → (check_regex compiles re field ≡ ok tt) ↔ Compiles compiles re
  regex_iff none field = (λ h. tt, λ h. refl)
  regex_iff (some re) field = (λ h. ground arith, λ h. ground arith)

  conditions_iff :
      (c : Option Conditions) (id : String)
      → (check_conditions compiles c id ≡ ok tt) ↔ ConditionsCompile compiles c
  conditions_iff none id = (λ h. tt, λ h. refl)
  conditions_iff (some c) id =
      let f = regex_iff c.filename_regex (RegexField.filename_regex id) in
      let g = regex_iff c.path_regex (RegexField.path_regex id) in
      (λ h. let (a, b) = >>-eq-ok _ _ h in (f.0 a, g.0 b), λ h. >>-of-ok _ _ (f.1 h.0) (g.1 h.1))

  rule_sound : (r : Rule) → validate_rule compiles r ≡ ok tt → IsValidRule compiles r
  unfolding validate_rule
  rule_sound r h =
      let (a, h') = >>-eq-ok _ _ h in
      let (b, c) = >>-eq-ok _ _ h' in
      record {
        id_slug = (IsSlug-iff r.id).0 (err_if-eq-ok _ _ a, err_if-eq-ok _ _ b);
        patterns = (conditions_iff r.conditions r.id).0 c;
      }

  rule_complete : (r : Rule) → IsValidRule compiles r → validate_rule compiles r ≡ ok tt
  unfolding validate_rule
  rule_complete r v =
      let (a, b) = (IsSlug-iff r.id).1 v.id_slug in
      >>-of-ok _ _ (err_if-of-false _ _ a)
        (>>-of-ok _ _ (err_if-of-false _ _ b) ((conditions_iff r.conditions r.id).1 v.patterns))

  -- None of the rules has an id that was seen before.
  abbrev Unseen : List String → List Rule → Type 0
  Unseen seen = All (λ r. All (λ s. r.id ≢ s) seen)

  Unseen-cons :
      (a : Rule) (seen : List String) (rs : List Rule)
      → Unseen (a.id ∷ seen) rs
      → All (λ s. a.id ≢ s.id) rs × Unseen seen rs
  Unseen-cons a seen [] h = (tt, tt)
  Unseen-cons a seen (r ∷ rs) h =
      let (d, u) = Unseen-cons a seen rs h.1 in ((λ e. h.0.0 (sym e), d), (h.0.1, u))

  Unseen-join :
      (a : Rule) (seen : List String) (rs : List Rule)
      → All (λ s. a.id ≢ s.id) rs
      → Unseen seen rs
      → Unseen (a.id ∷ seen) rs
  Unseen-join a seen [] d u = tt
  Unseen-join a seen (r ∷ rs) d u = ((λ e. d.0 (sym e), u.0), Unseen-join a seen rs d.1 u.1)

  rules_sound :
      (name : String) (seen : List String) (rs : List Rule)
      → validate_rules compiles name seen rs ≡ ok tt
      → All (IsValidRule compiles) rs × Distinct rs × Unseen seen rs
  unfolding validate_rules
  rules_sound name seen [] h = (tt, tt, tt)
  rules_sound name seen (r ∷ rs) h =
      let (a, h') = >>-eq-ok _ _ h in
      let (b, c) = >>-eq-ok _ _ h' in
      let (valid, distinct, unseen) = rules_sound name (r.id ∷ seen) rs c in
      let (d, u) = Unseen-cons r seen rs unseen in
      ((rule_sound r b, valid), (d, distinct), ((any-str_eq r.id seen).0 (err_if-eq-ok _ _ a), u))

  rules_complete :
      (name : String) (seen : List String) (rs : List Rule)
      → All (IsValidRule compiles) rs
      → Distinct rs
      → Unseen seen rs
      → validate_rules compiles name seen rs ≡ ok tt
  unfolding validate_rules
  rules_complete name seen [] v d u = refl
  rules_complete name seen (r ∷ rs) v d u =
      >>-of-ok _ _ (err_if-of-false _ _ ((any-str_eq r.id seen).1 u.0)) (
        >>-of-ok _ _ (rule_complete r v.0)
          (rules_complete name (r.id ∷ seen) rs v.1 d.1 (Unseen-join r seen rs d.0 u.1)))

  Unseen-nil : (rs : List Rule) → Unseen [] rs
  Unseen-nil [] = tt
  Unseen-nil (r ∷ rs) = (tt, Unseen-nil rs)

  validate_sound : (p : Policy) → validate compiles p ≡ ok tt → IsValidPolicy compiles p
  unfolding validate
  validate_sound p h =
      let (a, h1) = >>-eq-ok _ _ h in
      let (b, h2) = >>-eq-ok _ _ h1 in
      let (c, h3) = >>-eq-ok _ _ h2 in
      let (d, e) = >>-eq-ok _ _ h3 in
      let (valid, distinct, _) = rules_sound p.metadata.name [] _ e in
      record {
        api = equal_of_not _ _ (err_if-eq-ok _ _ a);
        kind = equal_of_not _ _ (err_if-eq-ok _ _ b);
        name_slug = (IsSlug-iff p.metadata.name).0 (err_if-eq-ok _ _ c, err_if-eq-ok _ _ d);
        rules_valid = valid;
        rules_distinct = distinct;
      }

  validate_complete : (p : Policy) → IsValidPolicy compiles p → validate compiles p ≡ ok tt
  unfolding validate
  validate_complete p v =
      let (c, d) = (IsSlug-iff p.metadata.name).1 v.name_slug in
      >>-of-ok _ _ (err_if-of-false _ _ (not_of_equal _ _ v.api)) (
        >>-of-ok _ _ (err_if-of-false _ _ (not_of_equal _ _ v.kind)) (
          >>-of-ok _ _ (err_if-of-false _ _ c) (
            >>-of-ok _ _ (err_if-of-false _ _ d)
              (rules_complete p.metadata.name [] _ v.rules_valid v.rules_distinct (Unseen-nil _)))))

  -- A policy passes validation exactly when its version and kind are the supported ones, its name
  -- and the ids of its rules are slugs, no two of its rules, inbound or outbound, share an id, and
  -- every pattern in their conditions compiles.
  pub validate_iff : (p : Policy) → (validate compiles p ≡ ok tt) ↔ IsValidPolicy compiles p
  validate_iff p = (validate_sound p, validate_complete p)
