-- ===== src/Core/CanonicalJson/Normal/Dictionary.antt =====
-- The normal form of a value whose objects have distinct keys, as those of app/core/canonical_json.py.
use kxinspect_backend.Base.{List, [], ◌∷◌, All, Bool-cases, inl, inr}
use kxinspect_backend.Db.Text.{Text}
use kxinspect_backend.Core.CanonicalJson.{
  Json, null, bool, int, float, text, arr, obj, Items, nil, cons, Members, end, member,
}
use kxinspect_backend.Core.CanonicalJson.Sorting.{
  utf16_sort_key, lex_lt, insert_member, sort_members,
}
use kxinspect_backend.Core.CanonicalJson.Order.{Distinct}
use kxinspect_backend.Core.CanonicalJson.Reordered.{
  Same, same, in_array, in_object, SameItems, no_items, item, SameMembers, unchanged, keep, swap,
  join_up,
}
use kxinspect_backend.Core.CanonicalJson.Normal.{members_of, normal, normal_items, normal_members}

-- The key differs from every key of an object.
abbrev pub IsFresh : Text → Members → Type 0
IsFresh key end = Unit {0}
IsFresh key (member k x ms) = Distinct key k × IsFresh key ms

-- Every object of the value is a dictionary: its keys are distinct, and texts of scalar values.
unfoldable mutual
  pub IsDictionary : Json → Type 0
  IsDictionary (arr xs) = AreDictionaries xs
  IsDictionary (obj ms) = AreMembers ms
  IsDictionary null = Unit {0}
  IsDictionary (bool b) = Unit {0}
  IsDictionary (int n) = Unit {0}
  IsDictionary float = Unit {0}
  IsDictionary (text s) = Unit {0}

  pub AreDictionaries : Items → Type 0
  AreDictionaries nil = Unit {0}
  AreDictionaries (cons x xs) = IsDictionary x × AreDictionaries xs

  pub AreMembers : Members → Type 0
  AreMembers end = Unit {0}
  AreMembers (member key x ms) = IsDictionary x × IsFresh key ms × AreMembers ms

abbrev FreshIn : Text → List (Text × Json) → Type 0
FreshIn key = All (λ (m : Text × Json). Distinct key m.0)

abbrev AreDistinct : List (Text × Json) → Type 0
AreDistinct [] = Unit {0}
AreDistinct (m ∷ ms) = FreshIn m.0 ms × AreDistinct ms

insert-same :
    (key : Text) (x : Json) (l : List (Text × Json))
    → FreshIn key l
    → SameMembers (member key x (members_of l)) (members_of (insert_member (key, x) l))
unfolding members_of insert_member
insert-same key x [] h = unchanged (member key x end)
insert-same key x ((k, y) ∷ l) (d, h) =
    elim (Bool-cases (lex_lt (utf16_sort_key k) (utf16_sort_key key))) [
      | inl e ↦
          rw e (join_up (swap key k x y (members_of l) d) (keep k (same y) (insert-same key x l h)))
      | inr e ↦ rw e (unchanged (member key x (member k y (members_of l))))
    ]

insert-All :
    (P : Text × Json → Type 0) (m : Text × Json) (l : List (Text × Json))
    → P m
    → All P l
    → All P (insert_member m l)
unfolding insert_member
insert-All P m [] p h = (p, tt)
insert-All P m (n ∷ l) p (q, h) =
    elim (Bool-cases (lex_lt (utf16_sort_key n.0) (utf16_sort_key m.0))) [
      | inl e ↦ rw e (q, insert-All P m l p h)
      | inr e ↦ rw e (p, (q, h))
    ]

sort-All : (P : Text × Json → Type 0) (l : List (Text × Json)) → All P l → All P (sort_members l)
unfolding sort_members
sort-All P [] h = tt
sort-All P (m ∷ l) (p, h) = insert-All P m (sort_members l) p (sort-All P l h)

sort-same :
    (l : List (Text × Json))
    → AreDistinct l
    → SameMembers (members_of l) (members_of (sort_members l))
unfolding members_of sort_members
sort-same [] h = unchanged end
sort-same ((k, y) ∷ l) (fresh, h) =
    join_up (keep k (same y) (sort-same l h))
      (insert-same k y (sort_members l) (sort-All (λ m. Distinct k m.0) l fresh))

normal_members-FreshIn :
    (key : Text) (ms : Members) → IsFresh key ms → FreshIn key (normal_members ms)
unfolding normal
normal_members-FreshIn key end h = tt
normal_members-FreshIn key (member k x ms) (d, h) = (d, normal_members-FreshIn key ms h)

normal_members-AreDistinct : (ms : Members) → AreMembers ms → AreDistinct (normal_members ms)
unfolding normal IsDictionary
normal_members-AreDistinct end h = tt
normal_members-AreDistinct (member k x ms) (_, fresh, h) =
    (normal_members-FreshIn k ms fresh, normal_members-AreDistinct ms h)

mutual
  unfolding normal IsDictionary members_of

  pub normal-Same : (a : Json) → IsDictionary a → Same a (normal a)
  normal-Same null h = same null
  normal-Same (bool b) h = same (bool b)
  normal-Same (int n) h = same (int n)
  normal-Same float h = same float
  normal-Same (text s) h = same (text s)
  normal-Same (arr xs) h = in_array (items-Same xs h)
  normal-Same (obj ms) h = in_object (
      join_up (members-Same ms h) (sort-same (normal_members ms) (normal_members-AreDistinct ms h)))

  items-Same : (xs : Items) → AreDictionaries xs → SameItems xs (normal_items xs)
  items-Same nil h = no_items
  items-Same (cons x xs) (p, h) = item (normal-Same x p) (items-Same xs h)

  members-Same : (ms : Members) → AreMembers ms → SameMembers ms (members_of (normal_members ms))
  members-Same end h = unchanged end
  members-Same (member key x ms) (p, _, h) = keep key (normal-Same x p) (members-Same ms h)
