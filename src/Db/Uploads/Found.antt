-- ===== src/Db/Uploads/Found.antt =====
-- When an id of app/db/store.py finds a file: a test on the entries of the two directories, whatever
-- their order.
use kxinspect_backend.Base.{
  ◌≡◌, refl, ap, ◌∙◌, Bool, ◌&&◌, ◌||◌, not, Option, none, some, List, [], ◌∷◌, ◌++◌, any_of,
  filter_by, arith, ◌⊎◌, inl, inr,
}
use kxinspect_backend.Db.Text.{Text}
use kxinspect_backend.Db.Uploads.{
  Entry, Directory, entries, insert_entry, sort_entries, first_file, matches, file_in,
  is_refused_id, first_found, is_missing, resolve_attachment,
}
use kxinspect_backend.Db.Uploads.Cleanup.{In}

abbrev has_file : List Entry → Bool
has_file = any_of (λ (e : Entry). e.is_file)

has_file-insert :
    (e : Entry) (es : List Entry) → has_file (insert_entry e es) ≡ (e.is_file || has_file es)
has_file-insert e [] = refl
has_file-insert e (f ∷ fs) = ground (arith, has_file-insert e fs)

has_file-sort : (es : List Entry) → has_file (sort_entries es) ≡ has_file es
has_file-sort [] = refl
has_file-sort (e ∷ es) =
    has_file-insert e (sort_entries es) ∙ ap (λ b. e.is_file || b) (has_file-sort es)

first_file-has_file : (es : List Entry) → is_missing (first_file es) ≡ not (has_file es)
first_file-has_file [] = refl
first_file-has_file (e ∷ es) = ground (arith, first_file-has_file es)

has_file-filter :
    (test : Entry → Bool) (es : List Entry)
    → has_file (filter_by test es) ≡ any_of (λ (e : Entry). e.is_file && test e) es
has_file-filter test [] = refl
has_file-filter test (e ∷ es) = ground (arith, has_file-filter test es)

first_found-missing :
    (a b : Option Entry) → is_missing (first_found a b) ≡ (is_missing a && is_missing b)
first_found-missing none b = refl
first_found-missing (some e) b = refl

module _ (fnmatch : Text → Text → Bool) where
  -- A file of the directory has a name that the pattern of the id finds.
  abbrev pub has_match : Text → List Entry → Bool
  has_match i = any_of (λ (e : Entry). e.is_file && matches fnmatch i e)

  file_in-missing :
      (i : Text) (d : Directory) → is_missing (file_in fnmatch i d) ≡ not (has_match i (entries d))
  unfolding file_in
  file_in-missing i d =
      first_file-has_file (sort_entries (filter_by (matches fnmatch i) (entries d)))
      ∙ ap not (
          has_file-sort (filter_by (matches fnmatch i) (entries d))
          ∙ has_file-filter (matches fnmatch i) (entries d))

  pub resolve_attachment-missing :
      (uploads static : Directory) (i : Text)
      → is_missing (resolve_attachment fnmatch uploads static i) ≡ (
          is_refused_id i
          || (not (has_match i (entries uploads)) && not (has_match i (entries static))))
  unfolding resolve_attachment
  resolve_attachment-missing uploads static i = ground (
    arith,
    first_found-missing (file_in fnmatch i uploads) (file_in fnmatch i static),
    file_in-missing i uploads,
    file_in-missing i static,
  )

pub In-append : (x : Text) (xs ys : List Text) → In x (xs ++ ys) → In x xs ⊎ In x ys
In-append x [] ys h = inr h
In-append x (z ∷ xs) ys (inl e) = inl (inl e)
In-append x (z ∷ xs) ys (inr h) = elim (In-append x xs ys h) [ inl a ↦ inl (inr a) | inr b ↦ inr b ]

pub In-left : (x : Text) (xs ys : List Text) → In x xs → In x (xs ++ ys)
In-left x [] ys h = absurd h
In-left x (z ∷ xs) ys (inl e) = inl e
In-left x (z ∷ xs) ys (inr h) = inr (In-left x xs ys h)

pub In-right : (x : Text) (xs ys : List Text) → In x ys → In x (xs ++ ys)
In-right x [] ys h = h
In-right x (z ∷ xs) ys h = inr (In-right x xs ys h)
