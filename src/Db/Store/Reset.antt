-- ===== src/Db/Store/Reset.antt =====
-- `reset` of app/db/store.py with what it does to the uploads: they are deleted before the fresh
-- state is written.
use kxinspect_backend.Base.{
  ◌≡◌, ◌≢◌, refl, String, Bool, Option, none, some, List, [], ◌∷◌, Bool-cases, inl, inr, arith,
}
use kxinspect_backend.Core.Errors.{api, store_unavailable, Result, raise}
use kxinspect_backend.Db.Text.{Text}
use kxinspect_backend.Db.Entities.{Entities}
use kxinspect_backend.Db.Models.{StoreSnapshot}
use kxinspect_backend.Db.Store.{Store, WriteOutcome, failed_before_replace, persist, reset}
use kxinspect_backend.Db.Uploads.{
  Directory, referenced_attachment_ids, file_in, is_missing, resolve_attachment,
  missing_attachments,
}
use kxinspect_backend.Db.Uploads.Cleanup.{In}
use kxinspect_backend.Db.Store.Startup.{
  corrupt, refused, holds, load_state, prepare_uploads, checked, open_store, saved,
}
use kxinspect_backend.Db.Store.Startup.Restart.{IsCurrent, parse_state-saved, backfill-filled}

-- What the uploads are after `rmtree`, `mkdir` and `_clear_staging`.
abbrev pub emptied : Directory
emptied = prepare_uploads (some [])

pub record ResetRun : Type 0 where
  pub result : Result StoreSnapshot
  pub store : Store
  pub uploads : Directory

unfoldable pub reset_all : WriteOutcome → Entities → String → Text → Store → Directory → ResetRun
reset_all write seed state_epoch stream_epoch store uploads =
    let run = reset write seed state_epoch stream_epoch store in
    record { result = run.0; store = run.1; uploads = emptied }

module _ (fnmatch : Text → Text → Bool) where
  missing-ne-nil :
      (uploads static : Directory) (ids : List Text) (i : Text)
      → In i ids
      → resolve_attachment fnmatch uploads static i ≡ none
      → missing_attachments fnmatch uploads static ids ≢ []
  unfolding missing_attachments
  missing-ne-nil uploads static [] i l h e = absurd l
  missing-ne-nil uploads static (j ∷ ids) i (inl same) h e = let k = rw (← same, h) at e in cc
  missing-ne-nil uploads static (j ∷ ids) i (inr later) h e =
      elim (Bool-cases (is_missing (resolve_attachment fnmatch uploads static j))) [
        | inl gone ↦ let k = rw gone at e in cc
        | inr found ↦ let k = rw found at e in missing-ne-nil uploads static ids i later h k
      ]

  file_in-emptied : (i : Text) → file_in fnmatch i emptied ≡ none
  unfolding file_in prepare_uploads
  file_in-emptied i = ground arith

  resolve-emptied :
      (static : Directory) (i : Text)
      → file_in fnmatch i static ≡ none
      → resolve_attachment fnmatch emptied static i ≡ none
  unfolding resolve_attachment
  resolve-emptied static i h = rw (file_in-emptied i, h) (ground arith)

  prepare-emptied : prepare_uploads emptied ≡ emptied
  unfolding prepare_uploads
  prepare-emptied = refl

  checked-missing :
      (s : StoreSnapshot) (written : Option StoreSnapshot) (uploads : Directory)
      (ids missing : List Text)
      → missing ≢ []
      → (checked fnmatch s written uploads ids missing).result ≡ refused corrupt
  checked-missing s written uploads ids [] h = absurd (h refl)
  checked-missing s written uploads ids (i ∷ missing) h = refl

  -- Take a state that this build wrote, which refers to an attachment that is no static file, and a
  -- reset whose write fails before the file is replaced. The call raises and the store keeps the
  -- state, in memory and on the disk; but the attachment is gone, and the next startup on that state
  -- ends with the corruption.
  pub reset_all_failed :
      (seed : Entities) (state_epoch : String) (stream_epoch : Text) (s : StoreSnapshot)
      (uploads static : Directory) (i : Text) (write : WriteOutcome)
      → IsCurrent s
      → In i (referenced_attachment_ids s.entities)
      → file_in fnmatch i static ≡ none
      → let store : Store = record { snapshot = some s; disk = some s } in
        let run = reset_all failed_before_replace seed state_epoch stream_epoch store uploads in
        (run.result ≡ raise (api store_unavailable))
        × (run.store ≡ store)
        × (resolve_attachment fnmatch run.uploads static i ≡ none)
        × ((open_store fnmatch write
              (some seed)
              state_epoch
              stream_epoch
              (some (holds (saved s)))
              run.uploads
              static).result
            ≡ refused corrupt)
  unfolding reset_all reset persist open_store load_state
  reset_all_failed seed state_epoch stream_epoch s uploads static i write h listed absent = (
    refl,
    refl,
    resolve-emptied static i absent,
    rw
        (
          parse_state-saved s h,
          backfill-filled seed.charges s.entities.charges h.filled,
          prepare-emptied,
        )
        (checked-missing _ _ _ _ _ (
          missing-ne-nil emptied static (referenced_attachment_ids s.entities) i listed
            (resolve-emptied static i absent))),
  )
