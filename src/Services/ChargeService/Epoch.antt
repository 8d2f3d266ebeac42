-- ===== src/Services/ChargeService/Epoch.antt =====
-- Commands that name the state epoch of before a reset.
use kxinspect_backend.Base.{◌≡◌, ◌≢◌, refl, String, some, none, [], arith, eq_iff}
use kxinspect_backend.Core.Clock.{DateTime}
use kxinspect_backend.Core.Errors.{api, epoch_mismatch, ok, raise}
use kxinspect_backend.Db.Text.{Text}
use kxinspect_backend.Db.Entities.{Entities, MaintenanceTask}
use kxinspect_backend.Db.Models.{StoreSnapshot}
use kxinspect_backend.Db.Store.{
  Store, WriteOutcome, written, CommitRun, commit, commit_lem, reset, seed_snapshot, ledger_get,
  persist, Mutator,
}
use kxinspect_backend.Services.ChargeService.Ledger.{CommandContext, replay, require_epoch}
use kxinspect_backend.Services.ChargeService.Commands.{ChargeCommand, charge_mutator}
use kxinspect_backend.Services.ChargeService.Tasks.{task_mutator, read_mutator}

-- A call that is refused for its epoch, and does nothing.
pub record IsRefused {T : Type 0} (expected state_epoch : String) (store : Store)
    (run : CommitRun T) : Type 0 where
  pub result : run.result ≡ raise (api (epoch_mismatch expected state_epoch 1))
  pub store_kept : run.store ≡ store
  pub published : run.published ≡ []

require_epoch-stale :
    (s : StoreSnapshot) (expected : String)
    → expected ≢ s.state_epoch
    → require_epoch s expected
      ≡ raise (api (epoch_mismatch expected s.state_epoch s.store_revision))
unfolding require_epoch
require_epoch-stale s expected h = ground (arith, eq_iff expected s.state_epoch)

module _ (seed : Entities) (state_epoch : String) (stream_epoch : Text) where
  abbrev fresh : StoreSnapshot
  unfolding seed_snapshot
  fresh = seed_snapshot seed state_epoch stream_epoch

  IsRefused-run :
      {T : Type 0} (at : DateTime) (write : WriteOutcome) (m : Mutator T) (store : Store)
      (expected : String)
      → store.snapshot ≡ some fresh
      → m fresh ≡ raise (api (epoch_mismatch expected state_epoch 1))
      → IsRefused expected state_epoch store (commit at write m store)
  IsRefused-run at write m store expected live h =
      rw (commit_lem at write m store fresh live, h)
        (record { result = refl; store_kept = refl; published = refl })

  module _ (expected : String) (stale : expected ≢ state_epoch) where
    check : require_epoch fresh expected ≡ raise (api (epoch_mismatch expected state_epoch 1))
    unfolding seed_snapshot
    check = require_epoch-stale fresh expected stale

    no_replay : (context : CommandContext) → replay fresh context ≡ ok none
    unfolding replay seed_snapshot ledger_get
    no_replay context = refl

    charge_refused :
        (now recorded_at : DateTime) (cmd : ChargeCommand)
        → cmd.expected_state_epoch ≡ expected
        → charge_mutator now recorded_at cmd fresh
          ≡ raise (api (epoch_mismatch expected state_epoch 1))
    unfolding charge_mutator
    charge_refused now recorded_at cmd e = rw (no_replay cmd.context, e, check)

    task_refused :
        (at : DateTime) (task : MaintenanceTask) (context : CommandContext)
        → task_mutator at task expected context fresh
          ≡ raise (api (epoch_mismatch expected state_epoch 1))
    unfolding task_mutator
    task_refused at task context = rw (no_replay context, check)

    read_refused :
        (id : String)
        → read_mutator id expected fresh ≡ raise (api (epoch_mismatch expected state_epoch 1))
    unfolding read_mutator
    read_refused id = rw check

-- After a reset that was written, every charge command, task creation and read mark that names
-- another state epoch than the new one is refused with an epoch mismatch that carries the new epoch
-- and revision 1: it changes neither the store nor the disk and publishes nothing, whether or not
-- its key was recorded before the reset.
pub reset_refuses_stale :
    (seed : Entities) (state_epoch : String) (stream_epoch : Text) (store : Store)
    (at now recorded_at : DateTime) (write : WriteOutcome) (cmd : ChargeCommand)
    (task : MaintenanceTask) (context : CommandContext) (notification_id : String)
    → cmd.expected_state_epoch ≢ state_epoch
    → let after = (reset written seed state_epoch stream_epoch store).1 in
      let stale = cmd.expected_state_epoch in
      IsRefused stale state_epoch after (commit at write (charge_mutator now recorded_at cmd) after)
      × IsRefused stale state_epoch after
          (commit at write (task_mutator recorded_at task stale context) after)
      × IsRefused stale state_epoch after
          (commit at write (read_mutator notification_id stale) after)
unfolding reset persist seed_snapshot
reset_refuses_stale seed epoch stream store at now rec write cmd task context id h =
    let after = (reset written seed epoch stream store).1 in
    let stale = cmd.expected_state_epoch in
    (
      IsRefused-run seed epoch stream at write _ after stale refl
          (charge_refused seed epoch stream stale h now rec cmd refl),
      IsRefused-run seed epoch stream at write _ after stale refl
          (task_refused seed epoch stream stale h rec task context),
      IsRefused-run seed epoch stream at write _ after stale refl
          (read_refused seed epoch stream stale h id),
    )
