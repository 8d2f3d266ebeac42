-- ===== src/Core/CanonicalJson/Printed/Unique.antt =====
-- How a printed value of app/core/canonical_json.py is read, whatever stands behind it.
use kxinspect_backend.Base.{ℕ, ◌+◌, ◌≡◌, ◌≢◌, refl, sym, true, false, ◌∷◌, ◌++◌, arith}
use kxinspect_backend.Base.Int.{pos, negsuc}
use kxinspect_backend.Db.Text.{Text, str}
use kxinspect_backend.Core.CanonicalJson.{
  Json, null, bool, int, float, text, arr, obj, Items, nil, cons, Members, end, member,
}
use kxinspect_backend.Core.CanonicalJson.Printed.{
  put, put_items, put_members, NoDigit, str-append, str_head, put-eq-kind, put-ne-bracket,
  put_text-append,
}

put_items-NoDigit : (xs : Items) (r : Text) → NoDigit (put_items xs r)
unfolding put
put_items-NoDigit nil r = refl
put_items-NoDigit (cons x xs) r = refl

put_members-NoDigit : (ms : Members) (r : Text) → NoDigit (put_members ms r)
unfolding put
put_members-NoDigit end r = refl
put_members-NoDigit (member k x ms) r = refl

str-ne-minus : (n : ℕ) (r t : Text) → str n ++ r ≢ b'-' ∷ t
str-ne-minus n r t e = let (c, s, printed, digit) = str_head n in ground arith

mutual
  unfolding put

  pub put-injective :
      (a b : Json) (r t : Text) → NoDigit r → NoDigit t → put a r ≡ put b t → (a ≡ b) × (r ≡ t)
  put-injective null null r t nr nt e = (refl, cc)
  put-injective (bool true) (bool true) r t nr nt e = (refl, cc)
  put-injective (bool false) (bool false) r t nr nt e = (refl, cc)
  put-injective (bool true) (bool false) r t nr nt e = ground arith
  put-injective (bool false) (bool true) r t nr nt e = ground arith
  put-injective (int (pos n)) (int (pos m)) r t nr nt e =
      let parts = str-append n m r t nr nt e in (cc, parts.1)
  put-injective (int (pos n)) (int (negsuc m)) r t nr nt e = absurd (str-ne-minus n r _ e)
  put-injective (int (negsuc n)) (int (pos m)) r t nr nt e = absurd (str-ne-minus m t _ (sym e))
  put-injective (int (negsuc n)) (int (negsuc m)) r t nr nt e =
      let parts = str-append (n + 1) (m + 1) r t nr nt (cc) in ground arith
  put-injective float float r t nr nt e = (refl, cc)
  put-injective (text s) (text u) r t nr nt e =
      let parts = put_text-append s u r t e in (cc, parts.1)
  put-injective (arr nil) (arr nil) r t nr nt e = (refl, cc)
  put-injective (arr nil) (arr (cons y ys)) r t nr nt e =
      absurd (put-ne-bracket y (put_items ys t) r (cc))
  put-injective (arr (cons x xs)) (arr nil) r t nr nt e =
      absurd (put-ne-bracket x (put_items xs r) t (cc))
  put-injective (arr (cons x xs)) (arr (cons y ys)) r t nr nt e =
      let head =
        put-injective x y (put_items xs r) (put_items ys t) (put_items-NoDigit xs r)
          (put_items-NoDigit ys t) (cc) in
      let rest = put_items-injective xs ys r t head.1 in (cc, rest.1)
  put-injective (obj end) (obj end) r t nr nt e = (refl, cc)
  put-injective (obj end) (obj (member k y ms)) r t nr nt e = ground arith
  put-injective (obj (member k x ms)) (obj end) r t nr nt e = ground arith
  put-injective (obj (member k x ms)) (obj (member j y ns)) r t nr nt e =
      let key =
        put_text-append k j (b':' ∷ put x (put_members ms r)) (b':' ∷ put y (put_members ns t))
          (cc) in
      let head =
        put-injective x y (put_members ms r) (put_members ns t) (put_members-NoDigit ms r)
          (put_members-NoDigit ns t) (cc) in
      let rest = put_members-injective ms ns r t head.1 in (cc, rest.1)
  put-injective a b r t nr nt e = absurd (omega (arith, put-eq-kind a b r t e))

  put_items-injective :
      (xs ys : Items) (r t : Text) → put_items xs r ≡ put_items ys t → (xs ≡ ys) × (r ≡ t)
  put_items-injective nil nil r t e = (refl, cc)
  put_items-injective nil (cons y ys) r t e = ground arith
  put_items-injective (cons x xs) nil r t e = ground arith
  put_items-injective (cons x xs) (cons y ys) r t e =
      let head =
        put-injective x y (put_items xs r) (put_items ys t) (put_items-NoDigit xs r)
          (put_items-NoDigit ys t) (cc) in
      let rest = put_items-injective xs ys r t head.1 in (cc, rest.1)

  put_members-injective :
      (ms ns : Members) (r t : Text) → put_members ms r ≡ put_members ns t → (ms ≡ ns) × (r ≡ t)
  put_members-injective end end r t e = (refl, cc)
  put_members-injective end (member k y ns) r t e = ground arith
  put_members-injective (member k x ms) end r t e = ground arith
  put_members-injective (member k x ms) (member j y ns) r t e =
      let key =
        put_text-append k j (b':' ∷ put x (put_members ms r)) (b':' ∷ put y (put_members ns t))
          (cc) in
      let head =
        put-injective x y (put_members ms r) (put_members ns t) (put_members-NoDigit ms r)
          (put_members-NoDigit ns t) (cc) in
      let rest = put_members-injective ms ns r t head.1 in (cc, rest.1)
