-- ===== src/Core/CanonicalJson/Normal/Serialized.antt =====
-- The sorting of app/core/canonical_json.py against its printing.
use mathlib.Core.List.{append_assoc}
use kxinspect_backend.Base.{
  ◌+◌, ◌≡◌, refl, sym, ap, ◌∙◌, true, false, List, [], ◌∷◌, ◌++◌, leb, Bool-cases, inl, inr,
}
use kxinspect_backend.Base.Int.{ℤ, pos, negsuc}
use kxinspect_backend.Core.Errors.{Result, ok, raise}
use kxinspect_backend.Db.Text.{Text, str}
use kxinspect_backend.Core.CanonicalJson.{
  Json, null, bool, int, float, text, arr, obj, Items, nil, cons, Members, end, member, escape,
  escape_body, null_text, true_text, false_text, int_text, max_safe_integer, join, member_text,
  member_texts, enclose, serialize, serialize_items, serialize_members,
}
use kxinspect_backend.Core.CanonicalJson.Sorting.{
  utf16_sort_key, lex_lt, insert_member, sort_members,
}
use kxinspect_backend.Core.CanonicalJson.Printed.{put_text, put}
use kxinspect_backend.Core.CanonicalJson.Normal.{
  members_of, normal, normal_items, normal_members, Printer, Prints, AllPrint, enclose_printed,
  item_printers, put_member, member_printers, put_items-list, put_members-list,
}

-- Two lists of members with the same keys, of which the second prints the texts of the first.
abbrev Paired : List (Text × Result Text) → List (Text × Json) → Type 0
Paired [] [] = Unit {0}
Paired ((j, t) ∷ ms) ((k, x) ∷ ns) = (j ≡ k) × Prints t (put x) × Paired ms ns
Paired _ _ = ⊥

insert-Paired :
    (j : Text) (t : Result Text) (x : Json) (ms : List (Text × Result Text))
    (ns : List (Text × Json))
    → Prints t (put x)
    → Paired ms ns
    → Paired (insert_member (j, t) ms) (insert_member (j, x) ns)
unfolding insert_member
insert-Paired j t x [] [] h hs = (refl, h, tt)
insert-Paired j t x [] (n ∷ ns) h hs = absurd hs
insert-Paired j t x (m ∷ ms) [] h hs = absurd hs
insert-Paired j t x ((i, u) ∷ ms) ((k, y) ∷ ns) h (same, h', hs) =
    elim (Bool-cases (lex_lt (utf16_sort_key k) (utf16_sort_key j))) [
      | inl e ↦ rw (same, e) (refl, h', insert-Paired j t x ms ns h hs)
      | inr e ↦ rw (same, e) (refl, h, (refl, h', hs))
    ]

sort-Paired :
    (ms : List (Text × Result Text)) (ns : List (Text × Json))
    → Paired ms ns
    → Paired (sort_members ms) (sort_members ns)
unfolding sort_members
sort-Paired [] [] hs = tt
sort-Paired [] (n ∷ ns) hs = absurd hs
sort-Paired (m ∷ ms) [] hs = absurd hs
sort-Paired ((i, u) ∷ ms) ((k, y) ∷ ns) (same, h, hs) =
    rw same (insert-Paired k u y (sort_members ms) (sort_members ns) h (sort-Paired ms ns hs))

escape_printed : (s r : Text) → escape s ++ r ≡ put_text s r
unfolding escape
escape_printed s r = ap (◌∷◌ b'"') (append_assoc (escape_body s) (b'"' ∷ []) r)

member_printed :
    (key : Text) (t : Result Text) (x : Json)
    → Prints t (put x)
    → Prints (member_text (key, t)) (put_member (key, x))
member_printed key (raise f) x h s e r = absurd (cc)
member_printed key (ok a) x h s e r =
    let same : escape key ++ (b':' ∷ a) ≡ s = cc in
    sym (
      ap (λ (v : Text). v ++ r) (sym same)
      ∙ append_assoc (escape key) (b':' ∷ a) r
      ∙ escape_printed key (b':' ∷ (a ++ r))
      ∙ ap (λ (v : Text). put_text key (b':' ∷ v)) (sym (h a refl r)))

Paired-printed :
    (ms : List (Text × Result Text)) (ns : List (Text × Json))
    → Paired ms ns
    → AllPrint (member_texts ms) (member_printers ns)
unfolding member_printers
Paired-printed [] [] hs = tt
Paired-printed [] (n ∷ ns) hs = absurd hs
Paired-printed (m ∷ ms) [] hs = absurd hs
Paired-printed ((i, u) ∷ ms) ((k, y) ∷ ns) (same, h, hs) =
    rw same (member_printed k u y h, Paired-printed ms ns hs)

arr_printed :
    (ts : List (Result Text)) (xs : Items)
    → AllPrint ts (item_printers xs)
    → Prints (enclose b'[' b']' (join ts)) (put (arr xs))
unfolding put item_printers
arr_printed ts nil h = enclose_printed b'[' b']' ts [] h (put (arr nil)) (λ r. refl)
arr_printed ts (cons x xs) h =
    enclose_printed b'[' b']' ts (item_printers (cons x xs)) h (put (arr (cons x xs)))
      (λ r. ap (λ (v : Text). b'[' ∷ put x v) (put_items-list xs r))

obj_printed :
    (ts : List (Result Text)) (ms : List (Text × Json))
    → AllPrint ts (member_printers ms)
    → Prints (enclose b'{' b'}' (join ts)) (put (obj (members_of ms)))
unfolding put member_printers members_of
obj_printed ts [] h = enclose_printed b'{' b'}' ts [] h (put (obj end)) (λ r. refl)
obj_printed ts ((k, x) ∷ ms) h =
    enclose_printed b'{' b'}' ts (member_printers ((k, x) ∷ ms)) h
      (put (obj (member k x (members_of ms))))
      (λ r. ap (λ (v : Text). b'{' ∷ put_member (k, x) v) (put_members-list ms r))

int_printed : (n : ℤ) → Prints (int_text n) (put (int n))
unfolding int_text put
int_printed (pos n) s e r = elim (Bool-cases (leb n max_safe_integer)) [
  | inl fits ↦ let k = rw fits at e in let same : str n ≡ s = cc in rw same
  | inr big ↦ let k = rw big at e in absurd (cc)
]
int_printed (negsuc n) s e r = elim (Bool-cases (leb (n + 1) max_safe_integer)) [
  | inl fits ↦ let k = rw fits at e in let same : (b'-' ∷ str (n + 1)) ≡ s = cc in rw (sym same)
  | inr big ↦ let k = rw big at e in absurd (cc)
]

known_printed : (w : Text) (p : Printer) → ((r : Text) → p r ≡ w ++ r) → Prints (ok w) p
known_printed w p h s e r = let same : w ≡ s = cc in h r ∙ ap (λ (v : Text). v ++ r) same

mutual
  unfolding serialize normal put item_printers

  -- What `serialize` gives for a value is the text of its normal form.
  pub serialize_printed : (a : Json) → Prints (serialize a) (put (normal a))
  serialize_printed null s e r = known_printed null_text (put null) (λ t. refl) s e r
  serialize_printed (bool true) s e r = known_printed true_text (put (bool true)) (λ t. refl) s e r
  serialize_printed (bool false) s e r =
      known_printed false_text (put (bool false)) (λ t. refl) s e r
  serialize_printed (int n) s e r = int_printed n s e r
  serialize_printed float s e r = absurd (cc)
  serialize_printed (text u) s e r =
      known_printed (escape u) (put (text u)) (λ t. sym (escape_printed u t)) s e r
  serialize_printed (arr xs) s e r =
      arr_printed (serialize_items xs) (normal_items xs) (items_printed xs) s e r
  serialize_printed (obj ms) s e r =
      obj_printed (member_texts (sort_members (serialize_members ms)))
        (sort_members (normal_members ms))
        (Paired-printed _ _ (sort-Paired _ _ (members_printed ms))) s e r

  items_printed : (xs : Items) → AllPrint (serialize_items xs) (item_printers (normal_items xs))
  items_printed nil = tt
  items_printed (cons x xs) = (serialize_printed x, items_printed xs)

  members_printed : (ms : Members) → Paired (serialize_members ms) (normal_members ms)
  members_printed end = tt
  members_printed (member key x ms) = (refl, serialize_printed x, members_printed ms)
