-- ===== src/Db/Text.antt =====
-- The part of Python's `str` and `int` that cursors need. A text that the program takes apart is a
-- list of code points.
pub mod RoundTrip
use Prim.Native.Char.{code}
use Prim.Native.String.{String}
use mathlib.Core.List.{reverse}
use kxinspect_backend.Base.{
  ℕ, zero, suc, ◌+◌, ◌-◌, ◌*◌, ◌/◌, ◌%◌, ◌≡◌, refl, Bool, true, false, ◌&&◌, ◌||◌, Option, none,
  some, List, [], ◌∷◌, ◌++◌, ltb, leb, ◌==◌, if◌then◌else◌,
}
use kxinspect_backend.Base.Int.{ℤ, pos, negsuc}

abbrev pub Text : Type 0
Text = List ℕ

-- The code points of a text of the source.
abbrev pub codes : String → Text
codes String.[] = []
codes (String.◌∷◌ c s) = code c ∷ codes s

-- Equality of two texts.
abbrev pub text_eq : Text → Text → Bool
text_eq [] [] = true
text_eq (c ∷ s) (d ∷ t) = c == d && text_eq s t
text_eq _ _ = false

abbrev pub is_digit : ℕ → Bool
is_digit c = leb b'0' c && leb c b'9'

-- White space as `str.strip` and `int` see it.
abbrev pub is_space : ℕ → Bool
is_space c =
    (leb 9 c && leb c 13)
    || (leb 28 c && leb c 32)
    || c == 0x85
    || c == 0xa0
    || c == 0x1680
    || (leb 0x2000 c && leb c 0x200a)
    || c == 0x2028
    || c == 0x2029
    || c == 0x202f
    || c == 0x205f
    || c == 0x3000

unfoldable pub lstrip : Text → Text
lstrip [] = []
lstrip (c ∷ s) = let rest = lstrip s in if is_space c then rest else c ∷ s

unfoldable pub strip : Text → Text
strip s = reverse (lstrip (reverse (lstrip s)))

-- The digits of `int(s)`, with single underscores between digits; `after_digit` says that the last
-- character was a digit. Digits of other scripts, which Python takes too, are refused here.
unfoldable pub scan : Bool → ℕ → Text → Option ℕ
scan true acc [] = some acc
scan false acc [] = none
scan after_digit acc (c ∷ s) =
    let more = scan true (acc * 10 + (c - b'0')) s in
    let joined = scan false acc s in
    if is_digit c then more else if after_digit && c == b'_' then joined else none

abbrev pub negate : Option ℕ → Option ℤ
negate none = none
negate (some zero) = some (pos 0)
negate (some (suc n)) = some (negsuc n)

abbrev pub positive : Option ℕ → Option ℤ
positive none = none
positive (some n) = some (pos n)

abbrev pub signed : Text → Option ℤ
signed [] = none
signed (c ∷ s) =
    if c == b'-'
    then negate (scan false 0 s)
    else if c == b'+'
    then positive (scan false 0 s)
    else positive (scan false 0 (c ∷ s))

-- `int(s)`; `none` is the ValueError.
unfoldable pub int_of : Text → Option ℤ
unfolding strip scan
int_of s = signed (strip s)

-- `str(n)` of a number that is not negative; `n + 1` rounds are enough for its digits.
unfoldable pub render : ℕ → ℕ → Text
render zero n = []
render (suc fuel) n = elim (ltb n 10) [
  | true ↦ (b'0' + n) ∷ []
  | false ↦ render fuel (n / 10) ++ ((b'0' + n % 10) ∷ [])
]

unfoldable pub str : ℕ → Text
unfolding render
str n = render (suc n) n

abbrev pub prepend : ℕ → List Text → List Text
prepend c [] = (c ∷ []) ∷ []
prepend c (part ∷ parts) = (c ∷ part) ∷ parts

-- `s.split(":")`
unfoldable pub split_colon : Text → List Text
split_colon [] = [] ∷ []
split_colon (c ∷ s) = let rest = split_colon s in if c == b':' then [] ∷ rest else prepend c rest

-- `s.split(c)` of one character.
abbrev pub split_on : ℕ → Text → List Text
split_on mark [] = [] ∷ []
split_on mark (c ∷ s) =
    let rest = split_on mark s in if c == mark then [] ∷ rest else prepend c rest

-- The truth of a text.
abbrev pub is_present : Text → Bool
is_present [] = false
is_present (c ∷ s) = true
