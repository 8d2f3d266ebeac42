-- ===== src/Services/Attachments/Finalize/Undo.antt =====
-- The rollback of app/services/attachment_service.py against the moves of `finalize`.
use mathlib.Core.List.{append-nil}
use kxinspect_backend.Base.{
  ◌≡◌, refl, ap, ◌∙◌, Bool, true, false, ◌&&◌, ◌||◌, not, List, [], ◌∷◌, ◌++◌, filter_by, any_of,
  All, arith, Bool-cases, inl, inr,
}
use kxinspect_backend.Db.Text.{Text, text_eq}
use kxinspect_backend.Db.Text.RoundTrip.{text_eq_sound}
use kxinspect_backend.Db.Uploads.{Entry, matches}
use kxinspect_backend.Services.Attachments.Finalize.{
  FinalizedAttachment, entry_of, has_other_name, place, place_all, rollback,
}

module _ (fnmatch : Text → Text → Bool) where
  -- The pattern of one of the ids finds the name.
  abbrev pub is_new : List FinalizedAttachment → Entry → Bool
  is_new fs e = any_of (λ (f : FinalizedAttachment). matches fnmatch f.id e) fs

  filter-filter :
      (test other : Entry → Bool) (es : List Entry)
      → filter_by other (filter_by test es) ≡ filter_by (λ e. test e && other e) es
  filter-filter test other [] = refl
  filter-filter test other (e ∷ es) = ground (arith, filter-filter test other es)

  filter-same :
      (test other : Entry → Bool) (es : List Entry)
      → ((e : Entry) → test e ≡ other e)
      → filter_by test es ≡ filter_by other es
  filter-same test other [] h = refl
  filter-same test other (e ∷ es) h = rw (h e, filter-same test other es h)

  filter-append :
      (test : Entry → Bool) (xs ys : List Entry)
      → filter_by test (xs ++ ys) ≡ filter_by test xs ++ filter_by test ys
  filter-append test [] ys = refl
  filter-append test (x ∷ xs) ys = ground (arith, filter-append test xs ys)

  rollback-eq-filter :
      (fs : List FinalizedAttachment) (es : List Entry)
      → rollback fnmatch fs es ≡ filter_by (λ e. not (is_new fs e)) es
  unfolding rollback
  rollback-eq-filter [] [] = refl
  rollback-eq-filter [] (e ∷ es) = ap (◌∷◌ e) (rollback-eq-filter [] es)
  rollback-eq-filter (f ∷ fs) es =
      rollback-eq-filter fs (filter_by (λ e. not (matches fnmatch f.id e)) es)
      ∙ filter-filter (λ e. not (matches fnmatch f.id e)) (λ e. not (is_new fs e)) es
      ∙ filter-same (λ e. not (matches fnmatch f.id e) && not (is_new fs e))
          (λ e. not (is_new (f ∷ fs) e)) es (λ e. not_or (matches fnmatch f.id e) (is_new fs e))
    where
      not_or : (a b : Bool) → (not a && not b) ≡ not (a || b)
      not_or true b = refl
      not_or false b = refl

  -- A test that reads the name alone and refuses the new file does not see the move.
  filter-place :
      (fs : List FinalizedAttachment) (e : Entry) (es : List Entry)
      → is_new fs e ≡ true
      → filter_by (λ x. not (is_new fs x)) (filter_by (has_other_name e) es)
        ≡ filter_by (λ x. not (is_new fs x)) es
  filter-place fs e [] h = refl
  filter-place fs e (x ∷ es) h = elim (Bool-cases (text_eq x.name e.name)) [
    | inl same ↦
        let named = text_eq_sound x.name e.name same in
        let new : is_new fs x ≡ true =
          ap (λ n. any_of (λ (f : FinalizedAttachment). fnmatch (f.id ++ (b'.' ∷ b'*' ∷ [])) n) fs)
            named
          ∙ h in
        rw (same, new, filter-place fs e es h)
    | inr other ↦ elim (Bool-cases (is_new fs x)) [
      | inl new ↦ rw (other, new, filter-place fs e es h)
      | inr old ↦ rw (other, old, filter-place fs e es h)
    ]
  ]

  filter-place_all :
      (all fs : List FinalizedAttachment) (es : List Entry)
      → All (λ f. is_new all (entry_of f) ≡ true) fs
      → filter_by (λ x. not (is_new all x)) (place_all fs es)
        ≡ filter_by (λ x. not (is_new all x)) es
  unfolding place_all place
  filter-place_all all [] es h = refl
  filter-place_all all (f ∷ fs) es h =
      filter-place_all all fs (place (entry_of f) es) h.1
      ∙ filter-append (λ x. not (is_new all x)) (filter_by (has_other_name (entry_of f)) es)
          (entry_of f ∷ [])
      ∙ rw (h.0) (append-nil _ ∙ filter-place all (entry_of f) es h.0)

  filter-All :
      (test : Entry → Bool) (es : List Entry) → All (λ e. test e ≡ true) es → filter_by test es ≡ es
  filter-All test [] h = refl
  filter-All test (e ∷ es) h = rw (h.0, filter-All test es h.1)

  -- What the moves need of fresh ids: each pattern finds its own file, and no file that was there.
  pub record AreFresh (fs : List FinalizedAttachment) (es : List Entry) : Type 0 where
    pub found : All (λ f. is_new fs (entry_of f) ≡ true) fs
    pub unused : All (λ e. not (is_new fs e) ≡ true) es

  -- With fresh ids, the rollback of all that `finalize` moved leaves exactly the uploads that were
  -- there before, in their order.
  pub rollback-place_all :
      (fs : List FinalizedAttachment) (es : List Entry)
      → AreFresh fs es
      → rollback fnmatch fs (place_all fs es) ≡ es
  rollback-place_all fs es h =
      rollback-eq-filter fs (place_all fs es)
      ∙ filter-place_all fs fs es h.found
      ∙ filter-All (λ x. not (is_new fs x)) es h.unused
