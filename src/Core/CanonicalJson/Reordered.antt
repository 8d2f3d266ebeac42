-- ===== src/Core/CanonicalJson/Reordered.antt =====
-- The canonical text of app/core/canonical_json.py and the order in which a client wrote the members
-- of an object.
use kxinspect_backend.Base.{◌≡◌, refl, sym, ap, ◌∙◌}
use kxinspect_backend.Db.Text.{Text}
use kxinspect_backend.Core.CanonicalJson.Sorting.{sort_members}
use kxinspect_backend.Core.CanonicalJson.Order.{Distinct, insert_swap}
use kxinspect_backend.Core.CanonicalJson.{
  Json, arr, obj, Items, nil, cons, Members, member, serialize, serialize_items, serialize_members,
  join, member_texts, enclose, canonical_json,
}

-- Two values that differ at most in the order of the members of their objects, at any depth.
mutual
  pub data Same : Json → Json → Type 0 where
    same : (a : Json) → Same a a
    flip : {a b : Json} → Same a b → Same b a
    chain : {a b c : Json} → Same a b → Same b c → Same a c
    in_array : {xs ys : Items} → SameItems xs ys → Same (arr xs) (arr ys)
    in_object : {ms ns : Members} → SameMembers ms ns → Same (obj ms) (obj ns)

  pub data SameItems : Items → Items → Type 0 where
    no_items : SameItems nil nil
    item :
        {x y : Json} {xs ys : Items}
        → Same x y
        → SameItems xs ys
        → SameItems (cons x xs) (cons y ys)

  pub data SameMembers : Members → Members → Type 0 where
    unchanged : (ms : Members) → SameMembers ms ms
    keep :
        {x y : Json} {ms ns : Members} (key : Text)
        → Same x y
        → SameMembers ms ns
        → SameMembers (member key x ms) (member key y ns)
    swap :
        (j k : Text) (x y : Json) (ms : Members)
        → Distinct j k
        → SameMembers (member j x (member k y ms)) (member k y (member j x ms))
    join_up : {ms ns os : Members} → SameMembers ms ns → SameMembers ns os → SameMembers ms os

mutual
  unfolding serialize sort_members

  serialize-Same : {a b : Json} → Same a b → serialize a ≡ serialize b
  serialize-Same (same a) = refl
  serialize-Same (flip h) = sym (serialize-Same h)
  serialize-Same (chain h k) = serialize-Same h ∙ serialize-Same k
  serialize-Same (in_array h) = ap (λ t. enclose b'[' b']' (join t)) (items_same h)
  serialize-Same (in_object h) =
      ap (λ t. enclose b'{' b'}' (join (member_texts t))) (members_same h)

  items_same : {xs ys : Items} → SameItems xs ys → serialize_items xs ≡ serialize_items ys
  items_same no_items = refl
  items_same (item h t) = rw (serialize-Same h, items_same t)

  members_same :
      {ms ns : Members}
      → SameMembers ms ns
      → sort_members (serialize_members ms) ≡ sort_members (serialize_members ns)
  members_same (unchanged ms) = refl
  members_same (keep key h t) = rw (serialize-Same h, members_same t)
  members_same (swap j k x y ms d) = insert_swap (j, serialize x) (k, serialize y) _ d
  members_same (join_up h t) = members_same h ∙ members_same t

-- Values that differ at most in the order of members with distinct keys, in any of their objects,
-- have the same canonical bytes, or are refused alike.
pub canonical_json-Same : (a b : Json) → Same a b → canonical_json a ≡ canonical_json b
unfolding canonical_json
canonical_json-Same a b h = rw (serialize-Same h)
