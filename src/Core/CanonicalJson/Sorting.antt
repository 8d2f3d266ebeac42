-- ===== src/Core/CanonicalJson/Sorting.antt =====
-- The order of the members of an object in app/core/canonical_json.py: by the UTF-16 code units of
-- their keys, big-endian, compared as bytes. `sorted` is an insertion sort here; it is stable.
use kxinspect_backend.Base.{
  ℕ, ◌+◌, ◌-◌, ◌/◌, ◌%◌, Bool, true, false, List, [], ◌∷◌, ◌++◌, ltb, if◌then◌else◌,
}
use kxinspect_backend.Db.Text.{Text}

-- The two bytes of a code unit.
abbrev pub unit_bytes : ℕ → List ℕ
unit_bytes u = (u / 256) ∷ (u % 256) ∷ []

-- The code units of one character; a surrogate stands for itself, by `surrogatepass`.
unfoldable pub utf16_char : ℕ → List ℕ
utf16_char c =
    if ltb c 0x10000
    then unit_bytes c
    else unit_bytes (0xd800 + (c - 0x10000) / 1024) ++ unit_bytes (0xdc00 + (c - 0x10000) % 1024)

-- `_utf16_sort_key`
unfoldable pub utf16_sort_key : Text → List ℕ
utf16_sort_key [] = []
utf16_sort_key (c ∷ s) = utf16_char c ++ utf16_sort_key s

-- `<` on bytes.
unfoldable pub lex_lt : List ℕ → List ℕ → Bool
lex_lt [] [] = false
lex_lt [] (d ∷ t) = true
lex_lt (c ∷ s) [] = false
lex_lt (c ∷ s) (d ∷ t) = if ltb c d then true else if ltb d c then false else lex_lt s t

module _ {A : Type 0} where
  unfoldable pub insert_member : Text × A → List (Text × A) → List (Text × A)
  insert_member m [] = m ∷ []
  insert_member m (n ∷ ns) =
      if lex_lt (utf16_sort_key n.0) (utf16_sort_key m.0)
      then n ∷ insert_member m ns
      else m ∷ n ∷ ns

  -- `sorted(value.items(), key=lambda item: _utf16_sort_key(item[0]))`
  unfoldable pub sort_members : List (Text × A) → List (Text × A)
  sort_members [] = []
  sort_members (m ∷ ms) = insert_member m (sort_members ms)
