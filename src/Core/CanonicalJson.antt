-- ===== src/Core/CanonicalJson.antt =====
-- app/core/canonical_json.py: the canonical text of a JSON value, its UTF-8 bytes and their digest.
-- A value is what Python's decoder gives: the members of an object in the order of the dictionary,
-- their keys texts. SHA-256 is a parameter.
pub mod Sorting
pub mod Order
pub mod Reordered
pub mod Printed
pub mod Normal
pub mod Digest
use kxinspect_backend.Base.{
  ℕ, ◌+◌, ◌-◌, ◌/◌, ◌%◌, ◌^◌, Bool, true, false, ◌&&◌, ◌||◌, Option, none, some, List, [], ◌∷◌,
  ◌++◌, ltb, leb, ◌==◌, if◌then◌else◌,
}
use kxinspect_backend.Base.Int.{ℤ, pos, negsuc}
use kxinspect_backend.Core.Errors.{Fault, Result, ok, raise, ◌>>=◌}
use kxinspect_backend.Db.Text.{Text, str}
use kxinspect_backend.Core.CanonicalJson.Sorting.{sort_members}

-- A floating point number is only known to be one: no text stands for it.
mutual
  pub data Json : Type 0 where
    null : Json
    bool : Bool → Json
    int : ℤ → Json
    float : Json
    text : Text → Json
    arr : Items → Json
    obj : Members → Json

  pub data Items : Type 0 where
    nil : Items
    cons : Json → Items → Items

  pub data Members : Type 0 where
    end : Members
    member : Text → Json → Members → Members

-- A digit of `f"{code:04x}"`.
abbrev pub hex_digit : ℕ → ℕ
hex_digit d = if ltb d 10 then b'0' + d else b'a' + (d - 10)

abbrev pub escape_with : ℕ → Text
escape_with c = b'\\' ∷ c ∷ []

-- What `_escape` appends for one character.
unfoldable pub escape_char : ℕ → Text
escape_char c =
    if c == 8
    then escape_with b'b'
    else if c == 9
    then escape_with b't'
    else if c == 10
    then escape_with b'n'
    else if c == 12
    then escape_with b'f'
    else if c == 13
    then escape_with b'r'
    else if c == b'"'
    then escape_with b'"'
    else if c == b'\\'
    then escape_with b'\\'
    else if ltb c 0x20
    then b'\\' ∷ b'u' ∷ b'0' ∷ b'0' ∷ hex_digit (c / 16) ∷ hex_digit (c % 16) ∷ []
    else c ∷ []

unfoldable pub escape_body : Text → Text
escape_body [] = []
escape_body (c ∷ s) = escape_char c ++ escape_body s

-- `_escape`
unfoldable pub escape : Text → Text
unfolding escape_body
escape value = b'"' ∷ (escape_body value ++ (b'"' ∷ []))

-- `_MAX_SAFE_INTEGER`
abbrev pub max_safe_integer : ℕ
max_safe_integer = 2 ^ 53 - 1

abbrev pub true_text : Text
true_text = b't' ∷ b'r' ∷ b'u' ∷ b'e' ∷ []

abbrev pub false_text : Text
false_text = b'f' ∷ b'a' ∷ b'l' ∷ b's' ∷ b'e' ∷ []

abbrev pub null_text : Text
null_text = b'n' ∷ b'u' ∷ b'l' ∷ b'l' ∷ []

-- `CanonicalJsonError` is a ValueError.
abbrev pub refused : Result Text
refused = raise Fault.value_error

-- The integers of the safe range, by `str`.
unfoldable pub int_text : ℤ → Result Text
int_text (pos n) = if leb n max_safe_integer then ok (str n) else refused
int_text (negsuc n) = if leb (n + 1) max_safe_integer then ok (b'-' ∷ str (n + 1)) else refused

-- `",".join(…)` of texts of which one may have raised.
unfoldable pub join : List (Result Text) → Result Text
join [] = ok []
join (part ∷ []) = part
join (part ∷ next ∷ parts) = part >>= λ s. join (next ∷ parts) >>= λ rest. ok (s ++ (b',' ∷ rest))

-- `f"{_escape(k)}:{_serialize(v)}"`
abbrev pub member_text : Text × Result Text → Result Text
member_text (key, value) = value >>= λ s. ok (escape key ++ (b':' ∷ s))

abbrev pub member_texts : List (Text × Result Text) → List (Result Text)
member_texts [] = []
member_texts (m ∷ ms) = member_text m ∷ member_texts ms

abbrev pub enclose : ℕ → ℕ → Result Text → Result Text
enclose left right inner = inner >>= λ s. ok (left ∷ (s ++ (right ∷ [])))

-- `_serialize`. The source sorts the members before it serialises them; every refusal is the same
-- exception, so which member is refused first does not show.
unfoldable mutual
  pub serialize : Json → Result Text
  serialize null = ok null_text
  serialize (bool true) = ok true_text
  serialize (bool false) = ok false_text
  serialize (int n) = int_text n
  serialize float = refused
  serialize (text s) = ok (escape s)
  serialize (arr xs) = enclose b'[' b']' (join (serialize_items xs))
  serialize (obj ms) = enclose b'{' b'}' (join (member_texts (sort_members (serialize_members ms))))

  pub serialize_items : Items → List (Result Text)
  serialize_items nil = []
  serialize_items (cons x xs) = serialize x ∷ serialize_items xs

  pub serialize_members : Members → List (Text × Result Text)
  serialize_members end = []
  serialize_members (member key x ms) = (key, serialize x) ∷ serialize_members ms

-- `str.encode("utf-8")` of one character; a lone surrogate is a UnicodeEncodeError, a ValueError.
unfoldable pub utf8_char : ℕ → Result (List ℕ)
utf8_char c =
    if ltb c 0x80
    then ok (c ∷ [])
    else if ltb c 0x800
    then ok ((0xc0 + c / 64) ∷ (0x80 + c % 64) ∷ [])
    else if leb 0xd800 c && leb c 0xdfff
    then raise Fault.value_error
    else if ltb c 0x10000
    then ok ((0xe0 + c / 4096) ∷ (0x80 + c / 64 % 64) ∷ (0x80 + c % 64) ∷ [])
    else ok
        ((0xf0 + c / 262144) ∷ (0x80 + c / 4096 % 64) ∷ (0x80 + c / 64 % 64) ∷ (0x80 + c % 64) ∷ [])

unfoldable pub utf8 : Text → Result (List ℕ)
utf8 [] = ok []
utf8 (c ∷ s) = utf8_char c >>= λ bytes. utf8 s >>= λ rest. ok (bytes ++ rest)

unfoldable pub canonical_json : Json → Result (List ℕ)
canonical_json value = serialize value >>= utf8

unfoldable pub canonical_sha256 : (List ℕ → Text) → Json → Result Text
canonical_sha256 sha256 value = canonical_json value >>= λ bytes. ok (sha256 bytes)
