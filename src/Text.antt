-- ===== src/Text.antt =====
-- Python's string operations that the modelled code walks a text with.
use Prim.Native.Char.{Char, code, nul}
use irrd.Base.{
  ℕ, ◌+◌, ◌-◌, ◌*◌, String, Bool, false, ◌&&◌, ◌||◌, Option, none, some, List, [], ◌∷◌, leb, eqb,
  if◌then◌else◌, zero, suc, ◌/◌, ◌%◌, ltb,
}

abbrev pub push_char : Char → List String → List String
push_char c [] = []
push_char c (p ∷ ps) = String.◌∷◌ c p ∷ ps

-- `s.split(c)` for a separator of one character, given by its code
unfoldable pub split : ℕ → String → List String
split sep String.[] = "" ∷ []
split sep (String.◌∷◌ c s) =
    let rest = split sep s in if eqb (code c) sep then "" ∷ rest else push_char c rest

-- `c in s`
unfoldable pub has_char : ℕ → String → Bool
has_char c String.[] = false
has_char c (String.◌∷◌ d s) = eqb (code d) c || has_char c s

abbrev pub is_digit : ℕ → Bool
is_digit c = leb b'0' c && leb c b'9'

unfoldable pub digits_from : ℕ → String → Option ℕ
digits_from acc String.[] = some acc
digits_from acc (String.◌∷◌ c s) =
    let rest = digits_from (acc * 10 + (code c - b'0')) s in
    if is_digit (code c) then rest else none

-- `int(s)` on a text of decimal digits; `none` stands for the `ValueError`. The signs, spaces and
-- underscores that `int` also takes are refused here.
unfoldable pub int : String → Option ℕ
unfolding digits_from
int String.[] = none
int (String.◌∷◌ c s) = digits_from 0 (String.◌∷◌ c s)

-- `str.maketrans(from, to)` applied to a character
abbrev pub translate : String → String → Char → Char
translate String.[] to c = c
translate (String.◌∷◌ a from) String.[] c = c
translate (String.◌∷◌ a from) (String.◌∷◌ b to) c =
    let rest = translate from to c in if eqb (code a) (code c) then b else rest

abbrev pub translate_all : String → String → String → String
translate_all from to String.[] = String.[]
translate_all from to (String.◌∷◌ c s) = String.◌∷◌ (translate from to c) (translate_all from to s)

-- `s.upper()` and `s.lower()` on ASCII letters; IRR names hold no others.
unfoldable pub upper : String → String
upper s = translate_all "abcdefghijklmnopqrstuvwxyz" "ABCDEFGHIJKLMNOPQRSTUVWXYZ" s

unfoldable pub lower : String → String
lower s = translate_all "ABCDEFGHIJKLMNOPQRSTUVWXYZ" "abcdefghijklmnopqrstuvwxyz" s

-- `s.startswith(prefix)`, with the text after the prefix
unfoldable pub strip_prefix : String → String → Option String
strip_prefix String.[] s = some s
strip_prefix (String.◌∷◌ c p) String.[] = none
strip_prefix (String.◌∷◌ c p) (String.◌∷◌ d s) =
    let rest = strip_prefix p s in if eqb (code c) (code d) then rest else none

-- `s + t`
unfoldable pub append : String → String → String
append String.[] t = t
append (String.◌∷◌ c s) t = String.◌∷◌ c (append s t)

-- `s[n]`, for an index within the text
abbrev pub char_at : String → ℕ → Char
char_at String.[] n = nul
char_at (String.◌∷◌ c s) zero = c
char_at (String.◌∷◌ c s) (suc n) = char_at s n

-- The digits of a number before `acc`. A number below the power of ten of the fuel is read whole.
unfoldable pub digits_of : ℕ → ℕ → String → String
digits_of zero n acc = acc
digits_of (suc fuel) n acc =
    let shown = String.◌∷◌ (char_at "0123456789" (n % 10)) acc in
    let rest = digits_of fuel (n / 10) shown in if ltb n 10 then shown else rest

-- `str(n)`. No number has more decimal digits than its successor counts.
unfoldable pub str : ℕ → String
str n = digits_of (suc n) n ""

-- The text before the first separator, which is `s.split(sep)[0]`
abbrev pub first : List String → String
first [] = ""
first (s ∷ rest) = s
