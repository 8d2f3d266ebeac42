-- ===== src/Db/Uploads/Cleanup.antt =====
-- The cleanup of app/db/store.py at startup, and the files that the state needs.
use kxinspect_backend.Base.{
  ◌≡◌, ◌≢◌, refl, Bool, true, none, some, List, [], ◌∷◌, any_of, filter_by, All, arith, Bool-cases,
  ◌⊎◌, inl, inr,
}
use kxinspect_backend.Db.Text.{Text, text_eq}
use kxinspect_backend.Db.Text.RoundTrip.{text_eq_refl}
use kxinspect_backend.Db.Uploads.{
  Entry, Directory, entries, stem, matches, file_in, resolve_attachment, is_missing,
  missing_attachments, is_kept, remove_unreferenced_uploads,
}

-- The text is one of the list.
abbrev pub In : Text → List Text → Type 0
In x [] = ⊥
In x (y ∷ ys) = (x ≡ y) ⊎ In x ys

any_of-In : (x : Text) (ids : List Text) → In x ids → any_of (λ i. text_eq i x) ids ≡ true
any_of-In x [] h = absurd h
any_of-In x (y ∷ ys) (inl e) = rw (e, text_eq_refl y)
any_of-In x (y ∷ ys) (inr h) = ground (arith, any_of-In x ys h)

module _ (fnmatch : Text → Text → Bool) where
  -- A file that the pattern of a referenced id finds has that id for its stem, as a name with one
  -- dot has.
  abbrev pub IsNamed : List Text → Entry → Type 0
  IsNamed referenced e =
      (i : Text) → In i referenced → e.is_file ≡ true → matches fnmatch i e ≡ true → stem e.name ≡ i

  module _ (referenced : List Text) (i : Text) (listed : In i referenced) where
    matches-is_kept :
        (e : Entry)
        → IsNamed referenced e
        → matches fnmatch i e ≡ true
        → is_kept referenced e ≡ true
    matches-is_kept e named m = elim (Bool-cases e.is_file) [
      | inr folder ↦ rw folder
      | inl file ↦ rw (file, named i listed file m, any_of-In i referenced listed)
    ]

    filter-is_kept :
        (es : List Entry)
        → All (IsNamed referenced) es
        → filter_by (matches fnmatch i) (filter_by (is_kept referenced) es)
          ≡ filter_by (matches fnmatch i) es
    filter-is_kept [] h = refl
    filter-is_kept (e ∷ es) h = elim (Bool-cases (matches fnmatch i e)) [
      | inl m ↦ rw (matches-is_kept e h.0 m, m, filter-is_kept es h.1)
      | inr m ↦ elim (Bool-cases (is_kept referenced e)) [
        | inl k ↦ rw (k, m, filter-is_kept es h.1)
        | inr k ↦ rw (k, m, filter-is_kept es h.1)
      ]
    ]

    pub resolve_attachment-cleanup :
        (uploads static : Directory)
        → All (IsNamed referenced) (entries uploads)
        → resolve_attachment fnmatch (remove_unreferenced_uploads referenced uploads) static i
          ≡ resolve_attachment fnmatch uploads static i
    unfolding resolve_attachment remove_unreferenced_uploads file_in
    resolve_attachment-cleanup none static h = refl
    resolve_attachment-cleanup (some es) static h = rw (filter-is_kept es h)

  -- Where no id of a list is missing, each of them resolves.
  pub missing_attachments-nil :
      (uploads static : Directory) (ids : List Text) (i : Text)
      → missing_attachments fnmatch uploads static ids ≡ []
      → In i ids
      → resolve_attachment fnmatch uploads static i ≢ none
  unfolding missing_attachments
  missing_attachments-nil uploads static [] i h l = absurd l
  missing_attachments-nil uploads static (j ∷ ids) i h l =
      elim (Bool-cases (is_missing (resolve_attachment fnmatch uploads static j))) [
        | inl e ↦ let k = rw e at h in absurd (cc)
        | inr e ↦
            let k = rw e at h in
            elim l [
              | inl same ↦ λ gone. let m = rw (← same, gone) at e in cc
              | inr later ↦ missing_attachments-nil uploads static ids i k later
            ]
      ]
