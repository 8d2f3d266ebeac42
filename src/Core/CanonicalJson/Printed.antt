-- ===== src/Core/CanonicalJson/Printed.antt =====
-- JSON text in the order of the value's own members, put before a rest: for app/core/canonical_json.py
-- the text of a value whose members are sorted already.
pub mod Unique
use mathlib.Core.List.{append_assoc}
use kxinspect_backend.Base.{
  ℕ, zero, suc, ◌+◌, ◌-◌, ◌≡◌, ◌≢◌, refl, sym, ap, ◌∙◌, Bool, true, false, ◌||◌, Option, none, some,
  List, [], ◌∷◌, ◌++◌, arith, ltb, leb, ◌==◌, if◌then◌else◌, Bool-cases, inl, inr,
}
use kxinspect_backend.Base.Int.{ℤ, pos, negsuc}
use kxinspect_backend.Db.Text.{Text, is_digit, str, render, int_of, lstrip}
use kxinspect_backend.Db.Text.RoundTrip.{IsDigits, render-IsDigits, int_of-str}
use kxinspect_backend.Core.CanonicalJson.{
  Json, null, bool, int, float, text, arr, obj, Items, nil, cons, Members, end, member, escape_char,
  escape_body,
}

abbrev pub int_chars : ℤ → Text
int_chars (pos n) = str n
int_chars (negsuc n) = b'-' ∷ str (n + 1)

abbrev pub put_text : Text → Text → Text
put_text s rest = b'"' ∷ (escape_body s ++ (b'"' ∷ rest))

unfoldable mutual
  pub put : Json → Text → Text
  put null rest = b'n' ∷ b'u' ∷ b'l' ∷ b'l' ∷ rest
  put (bool true) rest = b't' ∷ b'r' ∷ b'u' ∷ b'e' ∷ rest
  put (bool false) rest = b'f' ∷ b'a' ∷ b'l' ∷ b's' ∷ b'e' ∷ rest
  put (int n) rest = int_chars n ++ rest
  put float rest = b'.' ∷ rest
  put (text s) rest = put_text s rest
  put (arr nil) rest = b'[' ∷ b']' ∷ rest
  put (arr (cons x xs)) rest = b'[' ∷ put x (put_items xs rest)
  put (obj end) rest = b'{' ∷ b'}' ∷ rest
  put (obj (member key x ms)) rest = b'{' ∷ put_text key (b':' ∷ put x (put_members ms rest))

  pub put_items : Items → Text → Text
  put_items nil rest = b']' ∷ rest
  put_items (cons x xs) rest = b',' ∷ put x (put_items xs rest)

  pub put_members : Members → Text → Text
  put_members end rest = b'}' ∷ rest
  put_members (member key x ms) rest = b',' ∷ put_text key (b':' ∷ put x (put_members ms rest))

-- No digit stands at the head.
abbrev pub NoDigit : Text → Type 0
NoDigit [] = Unit {0}
NoDigit (c ∷ s) = is_digit c ≡ false

digits-append :
    (u v r t : Text)
    → IsDigits u
    → IsDigits v
    → NoDigit r
    → NoDigit t
    → u ++ r ≡ v ++ t
    → (u ≡ v) × (r ≡ t)
digits-append [] [] r t hu hv nr nt e = (refl, e)
digits-append [] (d ∷ v) [] t hu hv nr nt e = absurd (cc)
digits-append [] (d ∷ v) (c ∷ r) t hu hv nr nt e = absurd (cc)
digits-append (c ∷ u) [] r [] hu hv nr nt e = absurd (cc)
digits-append (c ∷ u) [] r (d ∷ t) hu hv nr nt e = absurd (cc)
digits-append (c ∷ u) (d ∷ v) r t hu hv nr nt e =
    let same : u ++ r ≡ v ++ t = cc in
    let rest = digits-append u v r t hu.1 hv.1 nr nt same in (cc, rest.1)

str-IsDigits : (n : ℕ) → IsDigits (str n)
unfolding str
str-IsDigits n = render-IsDigits (suc n) n

str-injective : (n m : ℕ) → str n ≡ str m → n ≡ m
str-injective n m e =
    let both : some (pos n) ≡ some (pos m) = sym (int_of-str n) ∙ ap int_of e ∙ int_of-str m in cc

pub str-append :
    (n m : ℕ) (r t : Text) → NoDigit r → NoDigit t → str n ++ r ≡ str m ++ t → (n ≡ m) × (r ≡ t)
str-append n m r t nr nt e =
    let parts = digits-append (str n) (str m) r t (str-IsDigits n) (str-IsDigits m) nr nt e in
    (str-injective n m parts.0, parts.1)

int_of-nil : int_of [] ≡ none
unfolding int_of lstrip
int_of-nil = refl

-- A printed number starts with a digit.
pub str_head : (n : ℕ) → (c : ℕ) × (s : Text) × (str n ≡ c ∷ s) × (is_digit c ≡ true)
str_head n = first (str n) refl (str-IsDigits n)
  where
    first :
        (s : Text)
        → str n ≡ s
        → IsDigits s
        → (c : ℕ) × (s : Text) × (str n ≡ c ∷ s) × (is_digit c ≡ true)
    first [] e d =
        let empty : none ≡ some (pos n) = sym int_of-nil ∙ ap int_of (sym e) ∙ int_of-str n in
        absurd (cc)
    first (c ∷ s) e d = (c, s, e, d.0)

escape_char-append :
    (c d : ℕ) (u v : Text) → escape_char c ++ u ≡ escape_char d ++ v → (c ≡ d) × (u ≡ v)
unfolding escape_char
escape_char-append c d u v e = ground arith

escape_char-ne-quote : (c : ℕ) (u v : Text) → escape_char c ++ u ≢ b'"' ∷ v
unfolding escape_char
escape_char-ne-quote c u v e = ground arith

-- Which kind of value a text starts, by its first character.
abbrev pub kind : Json → ℕ
kind null = 0
kind (bool b) = 1
kind (int n) = 3
kind float = 4
kind (text s) = 5
kind (arr xs) = 6
kind (obj ms) = 7

kind_of_char : ℕ → ℕ
kind_of_char c =
    if c == b'n'
    then 0
    else if c == b't' || c == b'f'
    then 1
    else if c == b'-' || is_digit c
    then 3
    else if c == b'.'
    then 4
    else if c == b'"'
    then 5
    else if c == b'['
    then 6
    else if c == b'{'
    then 7
    else 8

put-kind : (a : Json) (r t : Text) (c : ℕ) → put a r ≡ c ∷ t → kind_of_char c ≡ kind a
unfolding put kind_of_char
put-kind null r t c e = ground arith
put-kind (bool true) r t c e = ground arith
put-kind (bool false) r t c e = ground arith
put-kind (int (pos n)) r t c e = let (d, s, printed, digit) = str_head n in ground arith
put-kind (int (negsuc n)) r t c e = ground arith
put-kind float r t c e = ground arith
put-kind (text s) r t c e = ground arith
put-kind (arr nil) r t c e = ground arith
put-kind (arr (cons x xs)) r t c e = ground arith
put-kind (obj end) r t c e = ground arith
put-kind (obj (member k x ms)) r t c e = ground arith

-- Every value has a text that is not empty.
put_head : (a : Json) (r : Text) → (c : ℕ) × (t : Text) × (put a r ≡ c ∷ t)
unfolding put
put_head null r = (_, _, refl)
put_head (bool true) r = (_, _, refl)
put_head (bool false) r = (_, _, refl)
put_head (int (pos n)) r = let (d, s, printed, digit) = str_head n in (d, s ++ r, rw printed)
put_head (int (negsuc n)) r = (_, _, refl)
put_head float r = (_, _, refl)
put_head (text s) r = (_, _, refl)
put_head (arr nil) r = (_, _, refl)
put_head (arr (cons x xs)) r = (_, _, refl)
put_head (obj end) r = (_, _, refl)
put_head (obj (member k x ms)) r = (_, _, refl)

pub put-eq-kind : (a b : Json) (r t : Text) → put a r ≡ put b t → kind a ≡ kind b
put-eq-kind a b r t e =
    let (c, s, head) = put_head b t in sym (put-kind a r s c (e ∙ head)) ∙ put-kind b t s c head

pub put-ne-bracket : (a : Json) (r t : Text) → put a r ≢ b']' ∷ t
unfolding kind_of_char
put-ne-bracket a r t e = let k = put-kind a r t b']' e in ends a k
  where
    ends : (b : Json) → kind_of_char b']' ≡ kind b → ⊥
    ends null h = omega arith
    ends (bool b) h = omega arith
    ends (int n) h = omega arith
    ends float h = omega arith
    ends (text s) h = omega arith
    ends (arr xs) h = omega arith
    ends (obj ms) h = omega arith

escape_body-append :
    (s t r u : Text) → escape_body s ++ (b'"' ∷ r) ≡ escape_body t ++ (b'"' ∷ u) → (s ≡ t) × (r ≡ u)
unfolding escape_body
escape_body-append [] [] r u e = (refl, cc)
escape_body-append [] (d ∷ t) r u e =
    absurd (escape_char-ne-quote d _ r (sym (e ∙ append_assoc (escape_char d) _ _)))
escape_body-append (c ∷ s) [] r u e =
    absurd (escape_char-ne-quote c _ u (sym (append_assoc (escape_char c) _ _) ∙ e))
escape_body-append (c ∷ s) (d ∷ t) r u e =
    let parts =
      escape_char-append c d (escape_body s ++ (b'"' ∷ r)) (escape_body t ++ (b'"' ∷ u))
        (sym (append_assoc (escape_char c) _ _) ∙ e ∙ append_assoc (escape_char d) _ _) in
    let rest = escape_body-append s t r u parts.1 in (cc, rest.1)

pub put_text-append : (s t r u : Text) → put_text s r ≡ put_text t u → (s ≡ t) × (r ≡ u)
put_text-append s t r u e = escape_body-append s t r u (cc)
