-- ===== src/Prelude/Text.antt =====
-- Text as the code reads it: whole texts are compared, prefixes are taken off, a separator splits.
use Prim.Native.Nat.{ℕ, ◌+◌, ◌-◌, ◌*◌, ◌^◌, ◌<◌}
use Prim.Native.Char.{Char, code}
use Prim.Native.String
use Prim.Native.String.{String}
use mathlib.Core.Path.{◌≡◌, refl}
use mathlib.Core.Logic.{◌≢◌}
use mathlib.Core.Bool.{Bool, true, false, not, ◌&&◌, ◌||◌}
use mathlib.Core.Option
use mathlib.Core.Option.{Option, none, some}
use mathlib.Core.List.{List, [], ◌∷◌}
use native.Mathlib.Omega.{arith}
use text.Mathlib.Text.{◌==◌ as str_eq}
use text.Mathlib.TextLemmas.{nil-append, cons-append}
use skarbiec.Prelude.Tests.{◌==◌, if◌then◌else◌, ltb, leb}

-- The code points of a text: its bytes, if it is ASCII.
abbrev pub codes : String → List ℕ
codes String.[] = []
codes (String.◌∷◌ c s) = code c ∷ codes s

-- The bytes of one character in UTF-8, and `str::len`.
abbrev pub width : ℕ → ℕ
width c = if ltb c 128 then 1 else if ltb c 2048 then 2 else if ltb c 65536 then 3 else 4

abbrev pub bytes_len : String → ℕ
bytes_len String.[] = 0
bytes_len (String.◌∷◌ c s) = width (code c) + bytes_len s

-- `str::split_once`: what stands before the first separator and what stands behind it.
unfoldable pub split_once : ℕ → String → Option (String × String)
split_once sep String.[] = none
split_once sep (String.◌∷◌ c s) =
    let rest = split_once sep s in
    if code c == sep
    then some (String.[], s)
    else Option.map (λ (p : String × String). (String.◌∷◌ c p.0, p.1)) rest

-- No character of the text is the separator.
abbrev pub Avoids : ℕ → String → Type 0
Avoids sep String.[] = Unit
Avoids sep (String.◌∷◌ c s) = (code c ≢ sep) × Avoids sep s

-- Splitting a joined text gives its two parts back, if the first does not hold the separator.
pub split_once-join :
    (sep : ℕ) (c : Char) (s t : String)
    → code c ≡ sep
    → Avoids sep s
    → split_once sep (String.◌++◌ s (String.◌∷◌ c t)) ≡ some (s, t)
unfolding split_once
split_once-join sep c String.[] t e h = rw nil-append (ground arith)
split_once-join sep c (String.◌∷◌ d s) t e (n, h) =
    rw cons-append (ground (arith, split_once-join sep c s t e h))

abbrev is_digit : ℕ → Bool
is_digit c = leb b'0' c && leb c b'9'

-- The value of a run of decimal digits behind those already read.
unfoldable pub digits_value : ℕ → String → Option ℕ
digits_value n String.[] = some n
digits_value n (String.◌∷◌ c s) =
    let rest = digits_value (n * 10 + (code c - b'0')) s in if is_digit (code c) then rest else none

abbrev pub unsigned : String → Option ℕ
unsigned String.[] = none
unsigned (String.◌∷◌ c s) = digits_value 0 (String.◌∷◌ c s)

-- `+` may stand before the digits.
abbrev pub unsigned_text : String → Option ℕ
unsigned_text String.[] = none
unsigned_text (String.◌∷◌ c s) = if code c == b'+' then unsigned s else unsigned (String.◌∷◌ c s)

abbrev pub in_u64 : Option ℕ → Option ℕ
in_u64 none = none
in_u64 (some n) = if ltb n (2 ^ 64) then some n else none

-- `str::parse::<u64>`.
unfoldable pub parse_u64 : String → Option ℕ
unfolding digits_value
parse_u64 s = in_u64 (unsigned_text s)

abbrev pub nonzero : Option ℕ → Option ℕ
nonzero none = none
nonzero (some n) = if n == 0 then none else some n

-- `str::parse::<NonZeroU64>`.
unfoldable pub parse_nonzero : String → Option ℕ
unfolding parse_u64
parse_nonzero s = nonzero (parse_u64 s)

pub parse_u64_bound : (s : String) {n : ℕ} → parse_u64 s ≡ some n → n < 2 ^ 64
unfolding parse_u64
parse_u64_bound s e = ground arith

pub parse_nonzero_pos : (s : String) {n : ℕ} → parse_nonzero s ≡ some n → (0 < n) × (n < 2 ^ 64)
unfolding parse_nonzero
parse_nonzero_pos s e = ground arith

parse_600 : parse_nonzero "+600" ≡ some 600
unfolding parse_nonzero
parse_600 = refl

parse_word : parse_u64 "6x" ≡ none
unfolding parse_u64
parse_word = refl

-- `char::is_whitespace`: the code points that Unicode counts as white space.
abbrev pub is_whitespace : ℕ → Bool
is_whitespace c =
    leb 9 c && leb c 13
    || c == 32
    || c == 133
    || c == 160
    || c == 5760
    || leb 8192 c && leb c 8202
    || c == 8232
    || c == 8233
    || c == 8239
    || c == 8287
    || c == 12288

abbrev last_is : (ℕ → Bool) → List ℕ → Bool
last_is p [] = false
last_is p (c ∷ []) = p c
last_is p (c ∷ d ∷ cs) = last_is p (d ∷ cs)

abbrev first_is : (ℕ → Bool) → List ℕ → Bool
first_is p [] = false
first_is p (c ∷ cs) = p c

-- `s.trim() == s`: no white space at either end.
abbrev pub is_trimmed : String → Bool
is_trimmed s = not (first_is is_whitespace (codes s)) && not (last_is is_whitespace (codes s))

-- `s.strip_prefix(p)`
unfoldable pub strip_prefix : String → String → Option String
strip_prefix String.[] s = some s
strip_prefix (String.◌∷◌ c p) String.[] = none
strip_prefix (String.◌∷◌ c p) (String.◌∷◌ d s) =
    let rest = strip_prefix p s in if code c == code d then rest else none

-- Two members of JSON objects, each a text or left out.
abbrev pub same_text : Option String → Option String → Bool
same_text none none = true
same_text none (some t) = false
same_text (some s) none = false
same_text (some s) (some t) = str_eq s t

abbrev pub head_grown : Char → List String → List String
head_grown c [] = String.◌∷◌ c String.[] ∷ []
head_grown c (s ∷ ss) = String.◌∷◌ c s ∷ ss

-- `str::split` on one character: the texts between the separators.
unfoldable pub split : ℕ → String → List String
split sep String.[] = String.[] ∷ []
split sep (String.◌∷◌ c s) =
    let rest = split sep s in if code c == sep then String.[] ∷ rest else head_grown c rest

unfoldable pub trim_start : String → String
trim_start String.[] = String.[]
trim_start (String.◌∷◌ c s) =
    let rest = trim_start s in if is_whitespace (code c) then rest else String.◌∷◌ c s

abbrev grown_end : Char → String → String
grown_end c String.[] = if is_whitespace (code c) then String.[] else String.◌∷◌ c String.[]
grown_end c (String.◌∷◌ d s) = String.◌∷◌ c (String.◌∷◌ d s)

unfoldable pub trim_end : String → String
trim_end String.[] = String.[]
trim_end (String.◌∷◌ c s) = grown_end c (trim_end s)

-- `str::trim`
unfoldable pub trim : String → String
trim s = trim_end (trim_start s)
