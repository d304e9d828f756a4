-- ===== src/Classifier/Iban/Errors.antt =====
-- classifier/iban.rs, `iban_check`: which slips of the pen the check tells from an account number.
use mathlib.Core.List.{append_assoc}
use mathlib.Core.Bool.{false≢true}
use scrooge_dlp.Common.{
  ℕ, Bool, true, false, some, [], ◌∷◌, ◌++◌, ◌≡◌, ◌≢◌, ◌⊎◌, refl, sym, ap, ◌∙◌, arith, ◌≤◌, ◌<◌,
  ◌+◌, ◌-◌, length, all, all-middle, take, drop, Bool-cases, Option-cases, inl, inr, ==_iff,
  length-append,
}
use scrooge_dlp.Common.Text.{Text, is_ascii, is_ascii_digit, is_ascii_uppercase, split_at-ascii}
use scrooge_dlp.Classifier.Iban.{char_value, next_remainder, mod97_loop, iban_check}
use scrooge_dlp.Classifier.Iban.Check.{
  loop_step, loop_stop, mod97_loop-nil, iban_check-split, char_value-digit,
}

char_value-le : (c v : ℕ) → char_value c ≡ some v → v ≤ 35
unfolding char_value
char_value-le c v e = ground arith

next_remainder-lt : (r v : ℕ) → next_remainder r v < 97
unfolding next_remainder
next_remainder-lt r v = ground arith

-- A character tells the remainders apart.
next_remainder-injective :
    (r s v : ℕ) → r < 97 → s < 97 → v ≤ 35 → next_remainder r v ≡ next_remainder s v → r ≡ s
unfolding next_remainder
next_remainder-injective r s v hr hs hv e = ground arith

-- Two accepted remainders before the same text are one.
accepted_remainder :
    (r s : ℕ) (t : Text) → r < 97 → s < 97 → mod97_loop r t ≡ true → mod97_loop s t ≡ true → r ≡ s
accepted_remainder r s [] hr hs e f =
    let er = (==_iff r 1).0 (sym (mod97_loop-nil r) ∙ e) in
    let es = (==_iff s 1).0 (sym (mod97_loop-nil s) ∙ f) in er ∙ sym es
accepted_remainder r s (c ∷ t) hr hs e f = elim (Option-cases (char_value c)) [
  | inl bad ↦ absurd (false≢true (sym (loop_stop r c t bad) ∙ e))
  | inr (v, ok) ↦ next_remainder-injective r s v hr hs (char_value-le c v ok) (
      accepted_remainder (next_remainder r v) (next_remainder s v) t (next_remainder-lt r v)
        (next_remainder-lt s v) (sym (loop_step r c v t ok) ∙ e) (sym (loop_step s c v t ok) ∙ f))
]

-- Both digits, or both capital letters.
abbrev pub SameKind : ℕ → ℕ → Type 0
SameKind a b =
    ((is_ascii_digit a ≡ true) × (is_ascii_digit b ≡ true))
    ⊎ ((is_ascii_uppercase a ≡ true) × (is_ascii_uppercase b ≡ true))

same_digit : (r u v : ℕ) → r < 97 → u ≤ 9 → v ≤ 9 → next_remainder r u ≡ next_remainder r v → u ≡ v
unfolding next_remainder
same_digit r u v hr hu hv e = ground arith

same_letter :
    (r u v : ℕ)
    → r < 97
    → u ≤ 25
    → v ≤ 25
    → next_remainder r (u + 10) ≡ next_remainder r (v + 10)
    → u ≡ v
unfolding next_remainder
same_letter r u v hr hu hv e = ground arith

char_value-upper : (c : ℕ) → is_ascii_uppercase c ≡ true → char_value c ≡ some (c - 65 + 10)
unfolding char_value
char_value-upper c h = ground arith

loop_substitution_here :
    (r a b u v : ℕ) (q : Text)
    → char_value a ≡ some u
    → char_value b ≡ some v
    → mod97_loop r (a ∷ q) ≡ true
    → mod97_loop r (b ∷ q) ≡ true
    → next_remainder r u ≡ next_remainder r v
loop_substitution_here r a b u v q ea eb e f =
    accepted_remainder (next_remainder r u) (next_remainder r v) q (next_remainder-lt r u)
      (next_remainder-lt r v) (sym (loop_step r a u q ea) ∙ e) (sym (loop_step r b v q eb) ∙ f)

loop_substitution :
    (r a b : ℕ) (p q : Text)
    → r < 97
    → SameKind a b
    → mod97_loop r (p ++ a ∷ q) ≡ true
    → mod97_loop r (p ++ b ∷ q) ≡ true
    → a ≡ b
loop_substitution r a b [] q hr (inl (ha, hb)) e f =
    let same = same_digit r (a - 48) (b - 48) hr (ground arith) (ground arith) (
      loop_substitution_here r a b (a - 48) (b - 48) q (char_value-digit a ha)
        (char_value-digit b hb) e f) in
    ground arith
loop_substitution r a b [] q hr (inr (ha, hb)) e f =
    let same = same_letter r (a - 65) (b - 65) hr (ground arith) (ground arith) (
      loop_substitution_here r a b (a - 65 + 10) (b - 65 + 10) q (char_value-upper a ha)
        (char_value-upper b hb) e f) in
    ground arith
loop_substitution r a b (c ∷ p) q hr k e f = elim (Option-cases (char_value c)) [
  | inl bad ↦ absurd (false≢true (sym (loop_stop r c (p ++ a ∷ q) bad) ∙ e))
  | inr (v, ok) ↦
      loop_substitution (next_remainder r v) a b p q (next_remainder-lt r v) k
        (sym (loop_step r c v (p ++ a ∷ q) ok) ∙ e) (sym (loop_step r c v (p ++ b ∷ q) ok) ∙ f)
]

abbrev rearranged : Text → Text
rearranged t = drop 4 t ++ take 4 t

-- Where a character of the account number stands once the first four are moved to the end.
rearranged_place :
    (p q : Text)
    → 3 ≤ length (p ++ q)
    → (p' : Text) × (q' : Text) × ((c : ℕ) → rearranged (p ++ c ∷ q) ≡ p' ++ c ∷ q')
rearranged_place [] (x ∷ y ∷ z ∷ q) h = (q, x ∷ y ∷ z ∷ [], λ c. refl)
rearranged_place [] [] h = absurd (omega arith)
rearranged_place [] (x ∷ []) h = absurd (omega arith)
rearranged_place [] (x ∷ y ∷ []) h = absurd (omega arith)
rearranged_place (w ∷ []) (x ∷ y ∷ q) h = (q ++ w ∷ [], x ∷ y ∷ [], λ c. simp append_assoc)
rearranged_place (w ∷ []) [] h = absurd (omega arith)
rearranged_place (w ∷ []) (x ∷ []) h = absurd (omega arith)
rearranged_place (w ∷ x ∷ []) (y ∷ q) h = (q ++ w ∷ x ∷ [], y ∷ [], λ c. simp append_assoc)
rearranged_place (w ∷ x ∷ []) [] h = absurd (omega arith)
rearranged_place (w ∷ x ∷ y ∷ []) q h = (q ++ w ∷ x ∷ y ∷ [], [], λ c. simp append_assoc)
rearranged_place (w ∷ x ∷ y ∷ z ∷ p) q h = (p, q ++ w ∷ x ∷ y ∷ z ∷ [], λ c. simp append_assoc)

is_true_of_some : (b : Bool) → some b ≡ some true → b ≡ true
is_true_of_some b e = cc

checked :
    (t : Text)
    → all is_ascii t ≡ true
    → 4 ≤ length t
    → iban_check t ≡ some (mod97_loop 0 (rearranged t))
checked t h l = iban_check-split t (take 4 t) (drop 4 t) (split_at-ascii 4 t h l)

kind_ascii : (a b : ℕ) → SameKind a b → is_ascii b ≡ true
kind_ascii a b k = ground arith

-- No ASCII account number stays valid when one of its digits is replaced by another digit, or one
-- of its letters by another capital letter, wherever it stands.
pub iban_check-substitution :
    (p q : Text) (a b : ℕ)
    → all is_ascii (p ++ a ∷ q) ≡ true
    → 3 ≤ length (p ++ q)
    → SameKind a b
    → a ≢ b
    → iban_check (p ++ a ∷ q) ≡ some true
    → iban_check (p ++ b ∷ q) ≡ some false
iban_check-substitution p q a b h l k ne e =
    let (p', q', place) = rearranged_place p q l in
    let la = length-append {0} p (a ∷ q) in
    let lb = length-append {0} p (b ∷ q) in
    let l0 = length-append {0} p q in
    let hb = all-middle is_ascii p q a b h (kind_ascii a b k) in
    let ca = checked (p ++ a ∷ q) h (omega arith) in
    let cb = checked (p ++ b ∷ q) hb (omega arith) in
    let ea : mod97_loop 0 (p' ++ a ∷ q') ≡ true = rw (← place a) (is_true_of_some _ (sym ca ∙ e)) in
    elim (Bool-cases (mod97_loop 0 (p' ++ b ∷ q'))) [
      | inl f ↦ absurd (ne (loop_substitution 0 a b p' q' (omega arith) k ea f))
      | inr f ↦ cb ∙ ap some (rw (place b) f)
    ]
