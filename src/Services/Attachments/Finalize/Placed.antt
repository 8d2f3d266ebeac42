-- ===== src/Services/Attachments/Finalize/Placed.antt =====
-- The files that `finalize` of app/services/attachment_service.py moves, under their ids, and those
-- that were there before.
use kxinspect_backend.Base.{
  ◌≡◌, refl, ◌∙◌, String, Bool, true, false, ◌&&◌, List, [], ◌∷◌, ◌++◌, filter_by, All, arith,
  Bool-cases, inl, inr,
}
use kxinspect_backend.Db.Text.{Text, text_eq}
use kxinspect_backend.Db.Text.RoundTrip.{text_eq_sound}
use kxinspect_backend.Db.Uploads.{Entry, matches, attachment_ids, is_refused_id}
use kxinspect_backend.Db.Uploads.Cleanup.{In}
use kxinspect_backend.Db.Uploads.Found.{has_match}
use kxinspect_backend.Services.Attachments.{base_name}
use kxinspect_backend.Services.Attachments.Finalize.{
  FinalizedAttachment, entry_of, has_other_name, place, place_all, as_json_all,
}

-- What the ids of finalised attachments need: the pattern finds the file, the id is accepted, and the
-- url ends in the id.
pub record IsAddressed (fnmatch : Text → Text → Bool) (f : FinalizedAttachment) : Type 0 where
  pub found : matches fnmatch f.id (entry_of f) ≡ true
  pub accepted : is_refused_id f.id ≡ false
  pub url : base_name f.download_url ≡ f.id

module _ (fnmatch : Text → Text → Bool) where
  has_match-last :
      (i : Text) (e : Entry) (es : List Entry)
      → e.is_file ≡ true
      → matches fnmatch i e ≡ true
      → has_match fnmatch i (es ++ (e ∷ [])) ≡ true
  has_match-last i e [] file h = ground arith
  has_match-last i e (x ∷ es) file h = ground (arith, has_match-last i e es file h)

  has_match-place :
      (i : Text) (e : Entry) (es : List Entry)
      → e.is_file ≡ true
      → has_match fnmatch i es ≡ true
      → has_match fnmatch i (place e es) ≡ true
  unfolding place
  has_match-place i e [] file h = absurd (cc)
  has_match-place i e (x ∷ es) file h = elim (Bool-cases (text_eq x.name e.name)) [
    | inr other ↦ elim (Bool-cases (x.is_file && matches fnmatch i x)) [
      | inl m ↦ rw (other, m)
      | inr m ↦ let k = rw m at h in rw (other, m) (has_match-place i e es file k)
    ]
    | inl same ↦ elim (Bool-cases (x.is_file && matches fnmatch i x)) [
      | inr m ↦ let k = rw m at h in rw same (has_match-place i e es file k)
      | inl m ↦
          let named = text_eq_sound x.name e.name same in
          rw same (
            has_match-last i e (filter_by (has_other_name e) es) file (
              let n : fnmatch (i ++ (b'.' ∷ b'*' ∷ [])) x.name ≡ true = ground arith in
              rw named at n))
    ]
  ]

  pub has_match-place_all :
      (i : Text) (fs : List FinalizedAttachment) (es : List Entry)
      → has_match fnmatch i es ≡ true
      → has_match fnmatch i (place_all fs es) ≡ true
  unfolding place_all
  has_match-place_all i [] es h = h
  has_match-place_all i (f ∷ fs) es h =
      has_match-place_all i fs (place (entry_of f) es) (has_match-place i (entry_of f) es refl h)

  -- Every id of the responses is accepted, and finds its file among the uploads.
  pub attachment_ids-placed :
      (string : Text → String) (fs : List FinalizedAttachment) (es : List Entry) (i : Text)
      → All (IsAddressed fnmatch) fs
      → In i (attachment_ids (as_json_all string fs))
      → (is_refused_id i ≡ false) × (has_match fnmatch i (place_all fs es) ≡ true)
  unfolding place_all place
  attachment_ids-placed string [] es i h listed = absurd listed
  attachment_ids-placed string (f ∷ fs) es i h (inr later) =
      attachment_ids-placed string fs (place (entry_of f) es) i h.1 later
  attachment_ids-placed string (f ∷ fs) es i (a, h) (inl e) =
      let same = e ∙ a.url in
      rw same (
        a.accepted,
        has_match-place_all f.id fs (place (entry_of f) es) (
            has_match-last f.id (entry_of f) (filter_by (has_other_name (entry_of f)) es) refl
              a.found),
      )
