-- ===== src/Db/Store/Startup/Integrity.antt =====
-- What a startup of app/db/store.py leaves behind: the files that the state needs, and on a refusal
-- all that was there.
use kxinspect_backend.Base.{
  ◌≡◌, ◌≢◌, refl, sym, ◌∙◌, String, Bool, true, Option, none, some, List, [], ◌∷◌, filter_by, All,
  Bool-cases, inl, inr,
}
use kxinspect_backend.Db.Text.{Text}
use kxinspect_backend.Db.Entities.{Entities}
use kxinspect_backend.Db.Models.{StoreSnapshot}
use kxinspect_backend.Db.Store.{WriteOutcome}
use kxinspect_backend.Db.Uploads.{
  Entry, Directory, entries, referenced_attachment_ids, resolve_attachment, missing_attachments,
  is_kept, remove_unreferenced_uploads,
}
use kxinspect_backend.Db.Uploads.Cleanup.{
  In, IsNamed, resolve_attachment-cleanup, missing_attachments-nil,
}
use kxinspect_backend.Db.Store.Startup.{
  StartupError, started, refused, Written, StateFile, read_or_seed, prepare_uploads, checked,
  verified, open_store,
}

-- The uploads of a running state: every id that the state refers to finds a file, and every file has
-- a stem that the state refers to.
pub record IsServing (fnmatch : Text → Text → Bool) (static : Directory) (s : StoreSnapshot)
    (uploads : Directory) : Type 0 where
  pub resolves :
      (i : Text)
      → In i (referenced_attachment_ids s.entities)
      → resolve_attachment fnmatch uploads static i ≢ none
  pub needed : All (λ e. is_kept (referenced_attachment_ids s.entities) e ≡ true) (entries uploads)

module _ (fnmatch : Text → Text → Bool) where
  filter-needed :
      (test : Entry → Bool) (es : List Entry) → All (λ e. test e ≡ true) (filter_by test es)
  filter-needed test [] = tt
  filter-needed test (e ∷ es) = elim (Bool-cases (test e)) [
    | inl h ↦ rw h (h, filter-needed test es)
    | inr h ↦ rw h (filter-needed test es)
  ]

  cleanup-needed :
      (ids : List Text) (uploads : Directory)
      → All (λ e. is_kept ids e ≡ true) (entries (remove_unreferenced_uploads ids uploads))
  unfolding remove_unreferenced_uploads
  cleanup-needed ids none = tt
  cleanup-needed ids (some es) = filter-needed (is_kept ids) es

  checked-IsServing :
      (s t : StoreSnapshot) (written : Option StoreSnapshot) (uploads static : Directory)
      (missing : List Text)
      → missing_attachments fnmatch uploads static (referenced_attachment_ids s.entities) ≡ missing
      → All (IsNamed fnmatch (referenced_attachment_ids t.entities)) (entries uploads)
      → (checked fnmatch s written uploads (referenced_attachment_ids s.entities) missing).result
        ≡ started t
      → IsServing fnmatch static t
          (checked fnmatch s written uploads (referenced_attachment_ids s.entities) missing).uploads
  checked-IsServing s t written uploads static (i ∷ missing) m named e = absurd (cc)
  checked-IsServing s t written uploads static [] m named e =
      let same : s ≡ t = cc in
      rw (← same) (record {
        resolves = λ i listed gone.
            missing_attachments-nil fnmatch uploads static (referenced_attachment_ids s.entities) i
              m listed
              (sym (
                  resolve_attachment-cleanup fnmatch (referenced_attachment_ids s.entities) i listed
                    uploads static (rw (← same) at named))
                ∙ gone);
        needed = cleanup-needed (referenced_attachment_ids s.entities) uploads;
      })

  verified-IsServing :
      (w : Written) (t : StoreSnapshot) (uploads static : Directory)
      → All (IsNamed fnmatch (referenced_attachment_ids t.entities)) (entries uploads)
      → (verified fnmatch uploads static w).result ≡ started t
      → IsServing fnmatch static t (verified fnmatch uploads static w).uploads
  verified-IsServing (refused error, written) t uploads static named e = absurd (cc)
  verified-IsServing (started s, written) t uploads static named e =
      checked-IsServing s t written uploads static
        (missing_attachments fnmatch uploads static (referenced_attachment_ids s.entities)) refl
        named e

  -- An `open` that succeeds leaves uploads in which every id that the state refers to finds a file,
  -- and no file whose stem the state does not refer to, whether the state was seeded, read or
  -- upgraded; provided that a file found by the pattern of an id has that id for its stem, as the
  -- files that the service writes have.
  pub open_store-IsServing :
      (write : WriteOutcome) (seed : Option Entities) (state_epoch : String) (stream_epoch : Text)
      (file : Option StateFile) (uploads static : Directory) (t : StoreSnapshot)
      → All
          (IsNamed fnmatch (referenced_attachment_ids t.entities))
          (entries (prepare_uploads uploads))
      → (open_store fnmatch write seed state_epoch stream_epoch file uploads static).result
        ≡ started t
      → IsServing fnmatch static t
          (open_store fnmatch write seed state_epoch stream_epoch file uploads static).uploads
  unfolding open_store
  open_store-IsServing write seed state_epoch stream_epoch file uploads static t named e =
      verified-IsServing (read_or_seed write seed state_epoch stream_epoch file) t
        (prepare_uploads uploads) static named e

  verified-refused :
      (w : Written) (error : StartupError) (uploads static : Directory)
      → (verified fnmatch uploads static w).result ≡ refused error
      → (verified fnmatch uploads static w).uploads ≡ uploads
  verified-refused (refused f, written) error uploads static e = refl
  verified-refused (started s, written) error uploads static e =
      checked_refused
        (missing_attachments fnmatch uploads static (referenced_attachment_ids s.entities)) e
    where
      checked_refused :
          (missing : List Text)
          → (checked fnmatch s written uploads
              (referenced_attachment_ids s.entities)
              missing).result
            ≡ refused error
          → (checked fnmatch s written uploads
              (referenced_attachment_ids s.entities)
              missing).uploads
            ≡ uploads
      checked_refused [] e = absurd (cc)
      checked_refused (i ∷ missing) e = refl
