-- ===== src/Core/CanonicalJson/Digest.antt =====
-- What the canonical bytes of app/core/canonical_json.py say of a value.
use kxinspect_backend.Base.{ℕ, ◌≡◌, ◌↔◌, refl, sym, ap, ◌∙◌, List, [], ◌∷◌, ◌++◌, ◌≢◌, arith}
use kxinspect_backend.Core.Errors.{Result, ok, raise, ◌>>=◌}
use kxinspect_backend.Db.Text.{Text}
use kxinspect_backend.Core.CanonicalJson.{Json, serialize, utf8_char, utf8, canonical_json}
use kxinspect_backend.Core.CanonicalJson.Reordered.{Same, flip, chain, canonical_json-Same}
use kxinspect_backend.Core.CanonicalJson.Printed.Unique.{put-injective}
use kxinspect_backend.Core.CanonicalJson.Normal.{normal}
use kxinspect_backend.Core.CanonicalJson.Normal.Serialized.{serialize_printed}
use kxinspect_backend.Core.CanonicalJson.Normal.Dictionary.{IsDictionary, normal-Same}

-- The bytes of two characters, with anything behind them, start alike only where they are equal.
utf8_char-append :
    (c d : ℕ) (x y u v : List ℕ)
    → utf8_char c ≡ ok x
    → utf8_char d ≡ ok y
    → x ++ u ≡ y ++ v
    → (c ≡ d) × (u ≡ v)
unfolding utf8_char
utf8_char-append c d x y u v h k e = ground arith

utf8_char-ne-nil : (c : ℕ) (u : List ℕ) → utf8_char c ≡ ok [] → u ≢ u
unfolding utf8_char
utf8_char-ne-nil c u h = ground arith

utf8-cons :
    (c : ℕ) (s : Text) (b : List ℕ)
    → utf8 (c ∷ s) ≡ ok b
    → (x : List ℕ) × (y : List ℕ) × (utf8_char c ≡ ok x) × (utf8 s ≡ ok y) × (b ≡ x ++ y)
unfolding utf8
utf8-cons c s b h = parts (utf8_char c) (utf8 s) h
  where
    parts :
        (m n : Result (List ℕ))
        → (m >>= λ bytes. n >>= λ rest. ok (bytes ++ rest)) ≡ ok b
        → (x : List ℕ) × (y : List ℕ) × (m ≡ ok x) × (n ≡ ok y) × (b ≡ x ++ y)
    parts (ok x) (ok y) e = (x, y, refl, refl, cc)
    parts (ok x) (raise f) e = absurd (cc)
    parts (raise f) n e = absurd (cc)

utf8-cons-ne-nil : (c : ℕ) (s : Text) → utf8 (c ∷ s) ≢ ok []
utf8-cons-ne-nil c s h =
    let (x, y, first, rest, whole) = utf8-cons c s [] h in empty x y first whole
  where
    empty : (x y : List ℕ) → utf8_char c ≡ ok x → [] ≡ x ++ y → ⊥
    empty [] y first e = utf8_char-ne-nil c [] first refl
    empty (b ∷ x) y first e = absurd (cc)

utf8-injective : (s t : Text) (b : List ℕ) → utf8 s ≡ ok b → utf8 t ≡ ok b → s ≡ t
unfolding utf8
utf8-injective [] [] b h k = refl
utf8-injective [] (d ∷ t) b h k =
    let empty : [] ≡ b = cc in absurd (utf8-cons-ne-nil d t (k ∙ ap ok (sym empty)))
utf8-injective (c ∷ s) [] b h k =
    let empty : [] ≡ b = cc in absurd (utf8-cons-ne-nil c s (h ∙ ap ok (sym empty)))
utf8-injective (c ∷ s) (d ∷ t) b h k =
    let (x, u, first, rest, whole) = utf8-cons c s b h in
    let (y, v, first', rest', whole') = utf8-cons d t b k in
    let parts = utf8_char-append c d x y u v first first' (sym whole ∙ whole') in
    let others = utf8-injective s t u rest (rest' ∙ ap ok (sym parts.1)) in cc

serialize-canonical :
    (a : Json) (b : List ℕ)
    → canonical_json a ≡ ok b
    → (s : Text) × (serialize a ≡ ok s) × (utf8 s ≡ ok b)
unfolding canonical_json
serialize-canonical a b h = parts (serialize a) h
  where
    parts : (m : Result Text) → (m >>= utf8) ≡ ok b → (s : Text) × (m ≡ ok s) × (utf8 s ≡ ok b)
    parts (ok s) e = (s, refl, e)
    parts (raise f) e = absurd (cc)

-- Values with the same canonical bytes have the same normal form.
pub normal-canonical :
    (a b : Json) (bytes : List ℕ)
    → canonical_json a ≡ ok bytes
    → canonical_json b ≡ ok bytes
    → normal a ≡ normal b
normal-canonical a b bytes h k =
    let (s, text_of_a, bytes_of_a) = serialize-canonical a bytes h in
    let (t, text_of_b, bytes_of_b) = serialize-canonical b bytes k in
    let same = utf8-injective s t bytes bytes_of_a bytes_of_b in
    let printed =
      serialize_printed a s text_of_a []
      ∙ ap (λ (u : Text). u ++ []) same
      ∙ sym (serialize_printed b t text_of_b []) in
    (put-injective (normal a) (normal b) [] [] tt tt printed).0

-- Take two values whose objects have distinct keys, the first of which has canonical bytes. The
-- second has the same bytes exactly when the two differ at most in the order in which the members of
-- their objects stand.
pub canonical_json-iff-Same :
    (a b : Json) (bytes : List ℕ)
    → IsDictionary a
    → IsDictionary b
    → canonical_json a ≡ ok bytes
    → (canonical_json b ≡ ok bytes) ↔ Same a b
canonical_json-iff-Same a b bytes da db h = (
  λ k.
      let equal : Same (normal a) (normal b) =
        ap-Same (normal a) (normal b) (normal-canonical a b bytes h k) in
      chain (normal-Same a da) (chain equal (flip (normal-Same b db))),
  λ same_values. sym (canonical_json-Same a b same_values) ∙ h,
)
  where
    ap-Same : (x y : Json) → x ≡ y → Same x y
    ap-Same x y e = rw e (Same.same y)
