-- ===== src/Db/Store/Startup/Restart.antt =====
-- A restart of app/db/store.py on the file that `_persist` wrote, and on a file of another version.
use kxinspect_backend.Base.{
  ◌≡◌, ◌≢◌, refl, String, Bool, true, false, ◌&&◌, Option, none, some, List, [], ◌∷◌, All, arith,
  str_eq,
}
use kxinspect_backend.Db.Text.{Text}
use kxinspect_backend.Db.Cursor.{baseline_cursor}
use kxinspect_backend.Db.Entities.{Charge, Entities}
use kxinspect_backend.Db.Models.{StoreSnapshot}
use kxinspect_backend.Db.Store.{WriteOutcome}
use kxinspect_backend.Db.Store.Backfill.{is_filled, backfill_cost_breakdowns}
use kxinspect_backend.Db.Uploads.{
  Directory, referenced_attachment_ids, missing_attachments, remove_unreferenced_uploads,
}
use kxinspect_backend.Db.Store.Startup.{
  incompatible, started, refused, RawState, holds, cursor_or, Versions, versions_of, parse_state,
  load_state, prepare_uploads, open_store, detached, saved,
}

pub backfill-filled :
    (seed cs : List Charge)
    → All (λ (c : Charge). is_filled c.cost_breakdown ≡ true) cs
    → backfill_cost_breakdowns seed cs ≡ (cs, false)
unfolding backfill_cost_breakdowns
backfill-filled seed [] h = refl
backfill-filled seed (c ∷ cs) h = rw (h.0, backfill-filled seed cs h.1)

-- A snapshot that this build writes: its versions, cursors that are not empty, and a cost breakdown
-- in every charge.
pub record IsCurrent (s : StoreSnapshot) : Type 0 where
  pub schema : s.schema_version ≡ "1"
  pub contract : s.contract_version ≡ "1"
  pub seed : s.seed_version ≡ "2"
  pub cursor : s.stream_cursor ≢ []
  pub evicted : s.stream_evicted_through ≢ []
  pub filled : All (λ (c : Charge). is_filled c.cost_breakdown ≡ true) s.entities.charges

cursor_or-some : (c baseline : Text) → c ≢ [] → cursor_or (some c) baseline ≡ c
cursor_or-some [] baseline h = absurd (h refl)
cursor_or-some (d ∷ c) baseline h = refl

pub parse_state-saved :
    (s : StoreSnapshot) → IsCurrent s → parse_state (holds (saved s)) ≡ started (detached s)
unfolding parse_state
parse_state-saved s h =
    rw
      (
        h.schema,
        h.contract,
        h.seed,
        cursor_or-some s.stream_cursor (baseline_cursor s.stream_epoch) h.cursor,
        cursor_or-some s.stream_evicted_through (baseline_cursor s.stream_epoch) h.evicted,
      )
      refl

module _ (fnmatch : Text → Text → Bool) (write : WriteOutcome) where
  -- Take the file of a snapshot that this build wrote, readable seed files, and attachments that are
  -- all there. `open` gives that snapshot again, its revision, epochs, cursors, entities, events and
  -- ledger included (a body of the ledger being an object of its own from then on), does not write
  -- the state file, whatever the disk would do to a write, and removes the unreferenced uploads.
  pub open_store-saved :
      (seed : Entities) (state_epoch : String) (stream_epoch : Text) (s : StoreSnapshot)
      (uploads static : Directory)
      → IsCurrent s
      → missing_attachments fnmatch
          (prepare_uploads uploads)
          static
          (referenced_attachment_ids s.entities)
        ≡ []
      → open_store fnmatch write
          (some seed)
          state_epoch
          stream_epoch
          (some (holds (saved s)))
          uploads
          static
        ≡ record {
          result = started (detached s);
          written = none;
          uploads =
              remove_unreferenced_uploads
                (referenced_attachment_ids s.entities)
                (prepare_uploads uploads);
        }
  unfolding open_store load_state
  open_store-saved seed state_epoch stream_epoch s uploads static h found =
      rw (parse_state-saved s h, backfill-filled seed.charges s.entities.charges h.filled, found)
        refl

  -- A state file of another schema, contract or seed version ends the startup with the
  -- incompatibility, and neither the file nor an upload outside the staging directory is touched.
  pub open_store-incompatible :
      (seed : Option Entities) (state_epoch : String) (stream_epoch : Text) (raw : RawState)
      (v : Versions) (uploads static : Directory)
      → versions_of raw ≡ some v
      → (str_eq v.schema_version "1" && str_eq v.contract_version "1" && str_eq v.seed_version "2")
        ≡ false
      → open_store fnmatch write seed state_epoch stream_epoch (some (holds raw)) uploads static
        ≡ record {
          result = refused incompatible;
          written = none;
          uploads = prepare_uploads uploads;
        }
  unfolding open_store load_state parse_state
  open_store-incompatible seed state_epoch stream_epoch raw v uploads static known other =
      rw known (ground (arith))
