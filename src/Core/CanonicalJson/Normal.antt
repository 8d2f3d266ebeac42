-- ===== src/Core/CanonicalJson/Normal.antt =====
-- The normal form of a value of app/core/canonical_json.py, which has the members of every object
-- sorted.
pub mod Serialized
pub mod Dictionary
use mathlib.Core.List.{append_assoc}
use kxinspect_backend.Base.{
  ℕ, ◌+◌, ◌≤◌, ◌≡◌, refl, sym, ap, ◌∙◌, Bool, true, false, List, [], ◌∷◌, ◌++◌, arith, leb,
  Bool-cases, inl, inr, if◌then◌else◌,
}
use kxinspect_backend.Base.Int.{ℤ, pos, negsuc}
use kxinspect_backend.Core.Errors.{Result, ok, raise, ◌>>=◌}
use kxinspect_backend.Db.Text.{Text, str}
use kxinspect_backend.Core.CanonicalJson.{
  Json, null, bool, int, float, text, arr, obj, Items, nil, cons, Members, end, member, escape,
  escape_body, int_text, max_safe_integer, join, member_text, member_texts, enclose, serialize,
  serialize_items, serialize_members,
}
use kxinspect_backend.Core.CanonicalJson.Sorting.{
  utf16_sort_key, lex_lt, insert_member, sort_members,
}
use kxinspect_backend.Core.CanonicalJson.Printed.{int_chars, put_text, put, put_items, put_members}

unfoldable pub members_of : List (Text × Json) → Members
members_of [] = end
members_of ((key, x) ∷ ms) = member key x (members_of ms)

unfoldable mutual
  pub normal : Json → Json
  normal null = null
  normal (bool b) = bool b
  normal (int n) = int n
  normal float = float
  normal (text s) = text s
  normal (arr xs) = arr (normal_items xs)
  normal (obj ms) = obj (members_of (sort_members (normal_members ms)))

  pub normal_items : Items → Items
  normal_items nil = nil
  normal_items (cons x xs) = cons (normal x) (normal_items xs)

  pub normal_members : Members → List (Text × Json)
  normal_members end = []
  normal_members (member key x ms) = (key, normal x) ∷ normal_members ms

abbrev pub Printer : Type 0
Printer = Text → Text

-- Where the text is there, the printer puts it before any rest.
abbrev pub Prints : Result Text → Printer → Type 0
Prints t p = (s : Text) → t ≡ ok s → (r : Text) → p r ≡ s ++ r

abbrev pub AllPrint : List (Result Text) → List Printer → Type 0
AllPrint [] [] = Unit {0}
AllPrint (t ∷ ts) (p ∷ ps) = Prints t p × AllPrint ts ps
AllPrint _ _ = ⊥

-- The rest of a bracketed list.
pub put_list : ℕ → List Printer → Text → Text
put_list close [] r = close ∷ r
put_list close (p ∷ ps) r = b',' ∷ p (put_list close ps r)

join_inv :
    (t u : Result Text) (ts : List (Result Text)) (s : Text)
    → join (t ∷ u ∷ ts) ≡ ok s
    → (a : Text) × (b : Text) × (t ≡ ok a) × (join (u ∷ ts) ≡ ok b) × (s ≡ a ++ (b',' ∷ b))
unfolding join
join_inv t u ts s h = parts t (join (u ∷ ts)) h
  where
    parts :
        (x y : Result Text)
        → (x >>= λ a. y >>= λ b. ok (a ++ (b',' ∷ b))) ≡ ok s
        → (a : Text) × (b : Text) × (x ≡ ok a) × (y ≡ ok b) × (s ≡ a ++ (b',' ∷ b))
    parts (ok a) (ok b) e = (a, b, refl, refl, cc)
    parts (ok a) (raise f) e = absurd (cc)
    parts (raise f) y e = absurd (cc)

join_printed :
    (close : ℕ) (t : Result Text) (ts : List (Result Text)) (p : Printer) (ps : List Printer)
    → Prints t p
    → AllPrint ts ps
    → (s : Text) → join (t ∷ ts) ≡ ok s
    → (r : Text) → p (put_list close ps r) ≡ s ++ (close ∷ r)
unfolding join put_list
join_printed close t [] p [] h hs s e r = h s e (close ∷ r)
join_printed close t [] p (q ∷ ps) h hs s e r = absurd hs
join_printed close t (u ∷ ts) p [] h hs s e r = absurd hs
join_printed close t (u ∷ ts) p (q ∷ ps) h hs s e r =
    let (a, b, first, others, whole) = join_inv t u ts s e in
    let tail = join_printed close u ts q ps hs.0 hs.1 b others r in
    h a first (b',' ∷ q (put_list close ps r))
    ∙ ap (λ (v : Text). a ++ (b',' ∷ v)) tail
    ∙ sym (append_assoc a (b',' ∷ b) (close ∷ r))
    ∙ ap (λ (v : Text). v ++ (close ∷ r)) (sym whole)

enclose_inv :
    (left right : ℕ) (t : Result Text) (s : Text)
    → enclose left right t ≡ ok s
    → (a : Text) × (t ≡ ok a) × (s ≡ left ∷ (a ++ (right ∷ [])))
enclose_inv left right (ok a) s e = (a, refl, cc)
enclose_inv left right (raise f) s e = absurd (cc)

-- The text of a bracketed list, of which the printers of the elements are known.
pub enclose_printed :
    (left right : ℕ) (ts : List (Result Text)) (ps : List Printer)
    → AllPrint ts ps
    → (whole : Printer)
    → ((r : Text) → whole r ≡ left ∷ elim ps [ [] ↦ right ∷ r | p ∷ qs ↦ p (put_list right qs r) ])
    → Prints (enclose left right (join ts)) whole
unfolding join
enclose_printed left right [] [] hs whole w s e r =
    let (a, inner, same) = enclose_inv left right (join []) s e in
    let empty : [] ≡ a = cc in w r ∙ rw (same, sym empty)
enclose_printed left right [] (p ∷ ps) hs whole w s e r = absurd hs
enclose_printed left right (t ∷ ts) [] hs whole w s e r = absurd hs
enclose_printed left right (t ∷ ts) (p ∷ ps) hs whole w s e r =
    let (a, inner, same) = enclose_inv left right (join (t ∷ ts)) s e in
    w r
    ∙ ap (◌∷◌ left)
        (join_printed right t ts p ps hs.0 hs.1 a inner r ∙ sym (append_assoc a (right ∷ []) r))
    ∙ ap (λ (v : Text). v ++ r) (sym same)

pub item_printers : Items → List Printer
item_printers nil = []
item_printers (cons x xs) = put x ∷ item_printers xs

abbrev pub put_member : Text × Json → Printer
put_member (key, x) r = put_text key (b':' ∷ put x r)

pub member_printers : List (Text × Json) → List Printer
member_printers [] = []
member_printers (m ∷ ms) = put_member m ∷ member_printers ms

pub put_items-list : (xs : Items) (r : Text) → put_items xs r ≡ put_list b']' (item_printers xs) r
unfolding put put_list item_printers
put_items-list nil r = refl
put_items-list (cons x xs) r = ap (λ (v : Text). b',' ∷ put x v) (put_items-list xs r)

pub put_members-list :
    (ms : List (Text × Json)) (r : Text)
    → put_members (members_of ms) r ≡ put_list b'}' (member_printers ms) r
unfolding put put_list member_printers members_of
put_members-list [] r = refl
put_members-list (m ∷ ms) r = ap (λ (v : Text). b',' ∷ put_member m v) (put_members-list ms r)
