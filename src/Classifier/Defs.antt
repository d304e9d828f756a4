-- ===== src/Classifier/Defs.antt =====
-- classifier/mod.rs, `Match`, and what the classifiers take from the regex crate. A compiled
-- pattern is known by its `find_iter`, the list of its matches in a text.
use mathlib.Core.List.{filter_map}
use scrooge_dlp.Common.{
  ℕ, String, Option, none, some, List, [], ◌∷◌, ◌++◌, ◌≡◌, refl, arith, All, ◌%◌, ◌^◌,
}
use scrooge_dlp.Common.Text.{Text}

pub record Match : Type 0 where
  pub classifier : String
  pub start : ℕ
  pub end : ℕ
  pub redacted : Text
  pub last4 : Text

-- `regex::Match`: byte offsets, and the text between them.
pub record RegexMatch : Type 0 where
  pub start : ℕ
  pub end : ℕ
  pub as_str : Text

abbrev pub Regex : Type 0
Regex = Text → List RegexMatch

-- `u32` arithmetic of a release build wraps.
abbrev pub u32 : ℕ → ℕ
u32 n = n % 2 ^ 32

-- What the body of the loop over `find_iter` does with one match: `none` is a panic, `some none` is
-- `continue`, and `some (some m)` pushes `m`.
abbrev pub Body : Type 0
Body = RegexMatch → Option (Option Match)

-- One round of the loop, in front of the rest.
abbrev pub round : Option (Option Match) → Option (List Match) → Option (List Match)
round none rest = none
round (some r) none = none
round (some none) (some out) = some out
round (some (some m)) (some out) = some (m ∷ out)

-- The loop `for m in self.re.find_iter(text)`, which stops at the first panic.
unfoldable pub scan_loop : Body → List RegexMatch → Option (List Match)
scan_loop body [] = some []
scan_loop body (m ∷ ms) = round (body m) (scan_loop body ms)

-- A body that panics on no match scans to the end, and reports in the order of the matches.
pub scan_loop_total :
    (body : Body) (f : RegexMatch → Option Match) (ms : List RegexMatch)
    → All (λ m. body m ≡ some (f m)) ms
    → scan_loop body ms ≡ some (filter_map f ms)
unfolding scan_loop filter_map
scan_loop_total body f [] h = refl
scan_loop_total body f (m ∷ ms) h = ground (arith, scan_loop_total body f ms h.1)

-- A panic at a match ends the scan, whatever comes before and after it.
pub scan_loop_panics :
    (body : Body) (ms : List RegexMatch) (m : RegexMatch) (rest : List RegexMatch)
    → body m ≡ none
    → scan_loop body (ms ++ m ∷ rest) ≡ none
unfolding scan_loop
scan_loop_panics body [] m rest h = ground arith
scan_loop_panics body (x ∷ ms) m rest h = ground (arith, scan_loop_panics body ms m rest h)
