-- ===== src/Core/CanonicalJson/Order.antt =====
-- The order of the keys in app/core/canonical_json.py, and the sorting of members with distinct keys.
use kxinspect_backend.Base.{
  ℕ, ◌<◌, ◌≤◌, ◌≡◌, ◌≢◌, refl, sym, ◌⊎◌, inl, inr, true, false, List, [], ◌∷◌, ◌++◌, arith,
  Bool-cases, All,
}
use kxinspect_backend.Db.Text.{Text}
use kxinspect_backend.Core.CanonicalJson.Sorting.{utf16_char, utf16_sort_key, lex_lt, insert_member}

lex_lt_connex : (a b : List ℕ) → lex_lt a b ≡ false → lex_lt b a ≡ false → a ≡ b
unfolding lex_lt
lex_lt_connex [] [] h k = refl
lex_lt_connex [] (d ∷ t) h k = cc
lex_lt_connex (c ∷ s) [] h k = cc
lex_lt_connex (c ∷ s) (d ∷ t) h k = ground (arith, lex_lt_connex s t)

lex_lt_asym : (a b : List ℕ) → lex_lt a b ≡ true → lex_lt b a ≡ false
unfolding lex_lt
lex_lt_asym [] [] h = cc
lex_lt_asym [] (d ∷ t) h = refl
lex_lt_asym (c ∷ s) [] h = cc
lex_lt_asym (c ∷ s) (d ∷ t) h = ground (arith, lex_lt_asym s t)

lex_lt_trans : (a b c : List ℕ) → lex_lt a b ≡ true → lex_lt b c ≡ true → lex_lt a c ≡ true
unfolding lex_lt
lex_lt_trans [] [] c h k = k
lex_lt_trans [] (y ∷ b) [] h k = cc
lex_lt_trans [] (y ∷ b) (z ∷ c) h k = refl
lex_lt_trans (x ∷ a) [] c h k = cc
lex_lt_trans (x ∷ a) (y ∷ b) [] h k = cc
lex_lt_trans (x ∷ a) (y ∷ b) (z ∷ c) h k = ground (arith, lex_lt_trans a b c)

-- Where `y` is not above `z`, and `z` is below `x`, `y` is below `x`.
lex_lt_chain : (x y z : List ℕ) → lex_lt z y ≡ false → lex_lt z x ≡ true → lex_lt y x ≡ true
lex_lt_chain x y z h k = elim (Bool-cases (lex_lt y z)) [
  | inl below ↦ lex_lt_trans y z x below k
  | inr e ↦ rw (lex_lt_connex y z e h) k
]

-- A Unicode scalar value: a code point that is no surrogate.
abbrev pub IsScalar : ℕ → Type 0
IsScalar c = (c < 0xd800) ⊎ ((0xe000 ≤ c) × (c < 0x110000))

utf16_char-append :
    (c d : ℕ) (s t : List ℕ)
    → IsScalar c
    → IsScalar d
    → utf16_char c ++ s ≡ utf16_char d ++ t
    → (c ≡ d) × (s ≡ t)
unfolding utf16_char
utf16_char-append c d s t (inl hc) (inl hd) e = ground arith
utf16_char-append c d s t (inl hc) (inr hd) e = ground arith
utf16_char-append c d s t (inr hc) (inl hd) e = ground arith
utf16_char-append c d s t (inr hc) (inr hd) e = ground arith

utf16_char-ne-nil : (c : ℕ) (s : List ℕ) → [] ≢ utf16_char c ++ s
unfolding utf16_char
utf16_char-ne-nil c s e = ground arith

-- The sort key of a text of scalar values determines the text.
utf16_sort_key-injective :
    (j k : Text) → All IsScalar j → All IsScalar k → utf16_sort_key j ≡ utf16_sort_key k → j ≡ k
unfolding utf16_sort_key
utf16_sort_key-injective [] [] hj hk e = refl
utf16_sort_key-injective [] (d ∷ t) hj hk e = absurd (utf16_char-ne-nil d _ e)
utf16_sort_key-injective (c ∷ s) [] hj hk e = absurd (utf16_char-ne-nil c _ (sym e))
utf16_sort_key-injective (c ∷ s) (d ∷ t) hj hk e =
    let parts = utf16_char-append c d _ _ hj.0 hk.0 e in
    let rest = utf16_sort_key-injective s t hj.1 hk.1 parts.1 in rw (parts.0, rest)

-- Two keys of scalar values that differ: one of them is below the other.
pub record Distinct (j k : Text) : Type 0 where
  pub first_scalar : All IsScalar j
  pub second_scalar : All IsScalar k
  pub differ : j ≢ k

abbrev Below : Text → Text → Type 0
Below j k = lex_lt (utf16_sort_key j) (utf16_sort_key k) ≡ true

Distinct-ordered : (j k : Text) → Distinct j k → Below j k ⊎ Below k j
Distinct-ordered j k d = elim (Bool-cases (lex_lt (utf16_sort_key j) (utf16_sort_key k))) [
  | inl e ↦ inl e
  | inr e ↦ elim (Bool-cases (lex_lt (utf16_sort_key k) (utf16_sort_key j))) [
    | inl f ↦ inr f
    | inr f ↦ absurd (
        d.differ
          (utf16_sort_key-injective j k d.first_scalar d.second_scalar (lex_lt_connex _ _ e f)))
  ]
]

module _ {A : Type 0} where
  -- Two members whose keys are ordered can be inserted in either order.
  insert-Below :
      (m n : Text × A) (l : List (Text × A))
      → Below m.0 n.0
      → insert_member m (insert_member n l) ≡ insert_member n (insert_member m l)
  unfolding insert_member
  insert-Below m n [] h = rw (h, lex_lt_asym _ _ h)
  insert-Below m n (x ∷ l) h = ground (
    arith,
    insert-Below m n l h,
    lex_lt_asym (utf16_sort_key m.0) (utf16_sort_key n.0),
    lex_lt_trans (utf16_sort_key x.0) (utf16_sort_key m.0) (utf16_sort_key n.0),
  )

  pub insert_swap :
      (m n : Text × A) (l : List (Text × A))
      → Distinct m.0 n.0
      → insert_member m (insert_member n l) ≡ insert_member n (insert_member m l)
  insert_swap m n l d = elim (Distinct-ordered m.0 n.0 d) [
    | inl h ↦ insert-Below m n l h
    | inr h ↦ sym (insert-Below n m l h)
  ]
