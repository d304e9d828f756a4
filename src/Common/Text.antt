-- ===== src/Common/Text.antt =====
-- Rust's `str` as the list of its code points, with its length and positions in bytes of UTF-8.
use Prim.Native.Nat.{ℕ, zero, suc, ◌+◌, ◌-◌, ◌≤◌, ◌<◌, ◌/◌, ◌%◌}
use Prim.Native.Char.{code}
use Prim.Native.String.{String}
use mathlib.Core.Path.{◌≡◌, refl}
use mathlib.Core.Bool.{Bool, true, ◌&&◌, ◌||◌}
use mathlib.Core.Option.{Option, none, some}
use mathlib.Core.List.{List, [], ◌∷◌, ◌++◌}
use native.Mathlib.Omega.{arith}
use scrooge_dlp.Common.Tests.{ltb, leb, ◌==◌, if◌then◌else◌}
use scrooge_dlp.Common.Lists.{length, all, take, drop, length-append, All, All-append}

abbrev pub Text : Type 0
Text = List ℕ

-- A literal, as its code points.
abbrev pub codes : String → Text
codes String.[] = []
codes (String.◌∷◌ c s) = code c ∷ codes s

-- `char::len_utf8`
abbrev pub len_utf8 : ℕ → ℕ
len_utf8 c = if ltb c 0x80 then 1 else if ltb c 0x800 then 2 else if ltb c 0x10000 then 3 else 4

-- `str::len`: bytes, not characters.
abbrev pub byte_len : Text → ℕ
byte_len [] = 0
byte_len (c ∷ t) = len_utf8 c + byte_len t

-- The bytes of UTF-8, as `str::as_bytes` shows them.
abbrev pub encode_utf8 : ℕ → List ℕ
encode_utf8 c =
    if ltb c 0x80
    then c ∷ []
    else if ltb c 0x800
    then (0xC0 + c / 64) ∷ (0x80 + c % 64) ∷ []
    else if ltb c 0x10000
    then (0xE0 + c / 4096) ∷ (0x80 + c / 64 % 64) ∷ (0x80 + c % 64) ∷ []
    else (0xF0 + c / 262144) ∷ (0x80 + c / 4096 % 64) ∷ (0x80 + c / 64 % 64) ∷ (0x80 + c % 64) ∷ []

abbrev pub as_bytes : Text → List ℕ
as_bytes [] = []
as_bytes (c ∷ t) = encode_utf8 c ++ as_bytes t

abbrev pub map_head : ℕ → Option (Text × Text) → Option (Text × Text)
map_head c none = none
map_head c (some (a, b)) = some (c ∷ a, b)

-- `str::split_at`: `none` is the panic at an index past the end or inside a character.
abbrev pub split_at : ℕ → Text → Option (Text × Text)
split_at zero t = some ([], t)
split_at (suc n) [] = none
split_at (suc n) (c ∷ t) =
    if leb (len_utf8 c) (suc n) then map_head c (split_at (suc n - len_utf8 c) t) else none

abbrev pub is_ascii : ℕ → Bool
is_ascii c = ltb c 0x80

-- `&s[n..]`
abbrev pub slice_from : ℕ → Text → Option Text
slice_from n t = elim (split_at n t) [ none ↦ none | some (a, b) ↦ some b ]

-- `&s[..n]`
abbrev pub slice_to : ℕ → Text → Option Text
slice_to n t = elim (split_at n t) [ none ↦ none | some (a, b) ↦ some a ]

-- `&s[s.len() - 4..]`: a text of fewer than four bytes panics at the subtraction or at the slice.
abbrev pub last4 : Text → Option Text
last4 t = if leb 4 (byte_len t) then slice_from (byte_len t - 4) t else none

-- `char::is_ascii_digit`
abbrev pub is_ascii_digit : ℕ → Bool
is_ascii_digit c = leb 48 c && leb c 57

abbrev pub is_ascii_uppercase : ℕ → Bool
is_ascii_uppercase c = leb 65 c && leb c 90

abbrev pub is_ascii_lowercase : ℕ → Bool
is_ascii_lowercase c = leb 97 c && leb c 122

-- `char::is_whitespace`
abbrev pub is_whitespace : ℕ → Bool
is_whitespace c =
    (leb 9 c && leb c 13)
    || c == 32
    || c == 0x85
    || c == 0xA0
    || c == 0x1680
    || (leb 0x2000 c && leb c 0x200A)
    || c == 0x2028
    || c == 0x2029
    || c == 0x202F
    || c == 0x205F
    || c == 0x3000

-- The value of an ASCII digit: `c.to_digit(10).unwrap_or(0)`.
abbrev pub digit_value : ℕ → ℕ
digit_value c = if is_ascii_digit c then c - 48 else 0

-- A text of ASCII characters has a byte for each, and may be cut anywhere.
pub byte_len-ascii : (t : Text) → all is_ascii t ≡ true → byte_len t ≡ length t
byte_len-ascii [] h = refl
byte_len-ascii (c ∷ t) h = ground (arith, byte_len-ascii t)

pub as_bytes-ascii : (t : Text) → all is_ascii t ≡ true → as_bytes t ≡ t
as_bytes-ascii [] h = refl
as_bytes-ascii (c ∷ t) h = ground (arith, as_bytes-ascii t)

pub split_at-ascii :
    (n : ℕ) (t : Text)
    → all is_ascii t ≡ true
    → n ≤ length t
    → split_at n t ≡ some (take n t, drop n t)
split_at-ascii zero t h l = refl
split_at-ascii (suc n) [] h l = elim l [ ]
split_at-ascii (suc n) (c ∷ t) h l = ground (arith, split_at-ascii n t)

pub digits-ascii : (t : Text) → all is_ascii_digit t ≡ true → all is_ascii t ≡ true
digits-ascii [] h = refl
digits-ascii (c ∷ t) h = ground (arith, digits-ascii t)

pub last4-ascii :
    (t : Text) → all is_ascii t ≡ true → 4 ≤ length t → last4 t ≡ some (drop (length t - 4) t)
last4-ascii t h l = ground (arith, byte_len-ascii t h, split_at-ascii (length t - 4) t h)

-- The bytes number as many as the length says.
pub length-as_bytes : (t : Text) → length (as_bytes t) ≡ byte_len t
length-as_bytes [] = refl
length-as_bytes (c ∷ t) =
    ground (arith, length-as_bytes t, length-append (encode_utf8 c) (as_bytes t))

-- Rust's `char` goes up to 0x10FFFF.
abbrev pub IsText : Text → Type 0
IsText = All (λ c. c < 0x110000)

encode_utf8-byte : (c : ℕ) → c < 0x110000 → All (λ b. b < 256) (encode_utf8 c)
encode_utf8-byte c h = ground arith

pub as_bytes-IsByte : (t : Text) → IsText t → All (λ b. b < 256) (as_bytes t)
as_bytes-IsByte [] h = tt
as_bytes-IsByte (c ∷ t) h =
    All-append (λ b. b < 256) (encode_utf8 c) (as_bytes t) (encode_utf8-byte c h.0)
      (as_bytes-IsByte t h.1)

pub digits-IsText : (t : Text) → all is_ascii_digit t ≡ true → IsText t
digits-IsText [] h = tt
digits-IsText (c ∷ t) h = (ground arith, digits-IsText t (ground arith))

-- Only ASCII characters have a byte that is a digit in front.
pub digits_of_bytes :
    (t : Text) → all is_ascii_digit (as_bytes t) ≡ true → all is_ascii_digit t ≡ true
digits_of_bytes [] h = refl
digits_of_bytes (c ∷ t) h = ground (arith, digits_of_bytes t)

pub slice_from-ascii :
    (n : ℕ) (t : Text) → all is_ascii t ≡ true → n ≤ length t → slice_from n t ≡ some (drop n t)
slice_from-ascii n t h l = rw (split_at-ascii n t h l, slice_from)

pub slice_to-ascii :
    (n : ℕ) (t : Text) → all is_ascii t ≡ true → n ≤ length t → slice_to n t ≡ some (take n t)
slice_to-ascii n t h l = rw (split_at-ascii n t h l, slice_to)

abbrev pub strip_prefix : Text → Text → Option Text
strip_prefix [] t = some t
strip_prefix (c ∷ p) [] = none
strip_prefix (c ∷ p) (d ∷ t) = if c == d then strip_prefix p t else none

-- `str::replace`: the parts from left to right, past the `skip` characters of a part that was found.
abbrev pub replace_from : Text → Text → (skip : ℕ) → Text → Text
replace_from part value skip [] = []
replace_from part value (suc skip) (c ∷ t) = replace_from part value skip t
replace_from part value zero (c ∷ t) =
    let kept = replace_from part value zero t in
    let after = replace_from part value (length part - 1) t in
    elim (strip_prefix part (c ∷ t)) [ none ↦ c ∷ kept | some rest ↦ value ++ after ]

abbrev pub replace : Text → Text → Text → Text
replace part value t = replace_from part value zero t
