-- ===== src/Api/Download.antt =====
-- `download_attachment` of app/api/v1/endpoints/attachments.py: which bytes of a file a request
-- gets. The file is its list of bytes; its headers but `Content-Range` are not modelled.
--
-- The `Range` header reaches the code as Latin-1, where `\d` matches the ASCII digits alone, and
-- `int` refuses more than 4300 of them with a ValueError.
pub mod Bytes
use kxinspect_backend.Base.{
  ℕ, zero, suc, ◌+◌, ◌-◌, ◌*◌, ◌≤◌, ◌<◌, ◌≡◌, Bool, true, false, ◌&&◌, ◌||◌, Option, none, some,
  List, [], ◌∷◌, ◌++◌, length, take, drop, ltb, leb, ◌==◌, min, if◌then◌else◌,
}
use kxinspect_backend.Core.Errors.{
  Fault, api, range_not_satisfiable, Result, ok, raise, ◌>>=◌, ◌>>◌,
}
use kxinspect_backend.Db.Text.{Text, is_digit, strip}

-- `(\d*)` and what follows it.
unfoldable pub digits : Text → Text × Text
digits [] = ([], [])
digits (c ∷ s) = let rest = digits s in if is_digit c then (c ∷ rest.0, rest.1) else ([], c ∷ s)

-- The groups of `^(\d*)-(\d*)$`.
abbrev pub end_group : Text → Text × Text → Option (Text × Text)
end_group first (second, []) = some (first, second)
end_group first (second, _ ∷ _) = none

abbrev pub dash : Text × Text → Option (Text × Text)
dash (first, []) = none
dash (first, c ∷ s) = if c == b'-' then end_group first (digits s) else none

-- The part of a text after a prefix, where it has the prefix.
abbrev pub after_prefix : Text → Text → Option Text
after_prefix [] s = some s
after_prefix (p ∷ ps) [] = none
after_prefix (p ∷ ps) (c ∷ s) = if p == c then after_prefix ps s else none

abbrev pub bytes_prefix : Text
bytes_prefix = b'b' ∷ b'y' ∷ b't' ∷ b'e' ∷ b's' ∷ b'=' ∷ []

abbrev pub groups_of : Option Text → Option (Text × Text)
groups_of none = none
groups_of (some s) = dash (digits s)

-- `_RANGE.match(…).groups()`
unfoldable pub match_range : Text → Option (Text × Text)
match_range header = groups_of (after_prefix bytes_prefix (strip header))

-- `int` of a text of digits.
unfoldable pub value_of : ℕ → Text → ℕ
value_of acc [] = acc
value_of acc (c ∷ s) = value_of (acc * 10 + (c - b'0')) s

abbrev pub max_digits : ℕ
max_digits = 4300

unfoldable pub int_digits : Text → Result ℕ
int_digits s = if ltb max_digits (length s) then raise Fault.value_error else ok (value_of 0 s)

-- An inclusive range of positions.
abbrev pub ByteRange : Type 0
ByteRange = ℕ × ℕ

abbrev pub unsatisfiable {ℓ} : {A : Type ℓ} → Result A
unsatisfiable = raise (api range_not_satisfiable)

-- The two tests after the bounds are known, and the cut at the end of the file.
unfoldable pub clip : ℕ → ByteRange → Result ByteRange
clip size (first, last) =
    if leb size first || ltb last first then unsatisfiable else ok (first, min last (size - 1))

-- `size - 1` where the size is zero is -1 in the source and 0 here: `clip` refuses both, since no
-- position is below the size.
abbrev pub bounds : ℕ → Text → Text → Result ByteRange
bounds size [] [] = unsatisfiable
bounds size [] (d ∷ ds) = int_digits (d ∷ ds) >>= λ suffix.
    if suffix == 0 then unsatisfiable else ok (size - suffix, size - 1)
bounds size (c ∷ cs) [] = int_digits (c ∷ cs) >>= λ first. ok (first, size - 1)
bounds size (c ∷ cs) (d ∷ ds) =
    int_digits (c ∷ cs) >>= λ first. int_digits (d ∷ ds) >>= λ last. ok (first, last)

abbrev pub range_of_groups : ℕ → Option (Text × Text) → Result ByteRange
range_of_groups size none = unsatisfiable
range_of_groups size (some (raw_start, raw_end)) = bounds size raw_start raw_end >>= clip size

unfoldable pub range_of : ℕ → Text → Result ByteRange
range_of size header = range_of_groups size (match_range header)

-- `read_range`: `seek`, then `read` of the length.
unfoldable pub read_range : List ℕ → ℕ → ℕ → List ℕ
read_range content first last = take (last - first + 1) (drop first content)

pub data Download : Type 0 where
  full : (body : List ℕ) → Download
  partial : (body : List ℕ) (first last size : ℕ) → Download

unfoldable pub download : List ℕ → Option Text → Result Download
download content none = ok (full content)
download content (some header) = range_of (length content) header >>= λ range.
    ok (partial (read_range content range.0 range.1) range.0 range.1 (length content))
