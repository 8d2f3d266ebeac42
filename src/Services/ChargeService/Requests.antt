-- ===== src/Services/ChargeService/Requests.antt =====
-- Sequences of requests against the store. The store's lock runs their commits one after another,
-- so a run of the service is a list of requests, each with the instants that its handler reads and
-- what the disk does to its write.
pub mod Run
use mathlib.Core.List.{append-nil, append_assoc}
use kxinspect_backend.Base.{
  ◌+◌, ◌≤◌, ◌≡◌, refl, String, none, some, List, [], ◌∷◌, ◌++◌, All, arith, Bool-cases, inl, inr,
}
use kxinspect_backend.Base.Int.{ℤ}
use kxinspect_backend.Core.Clock.{DateTime}
use kxinspect_backend.Core.Errors.{Result, ok, raise}
use kxinspect_backend.Domain.ChargeState.{ChargeEvent, Actor, actor_for}
use kxinspect_backend.Domain.ChargeState.Lifecycle.{lifecycle_terminates, rank}
use kxinspect_backend.Db.Entities.{Charge, MaintenanceTask}
use kxinspect_backend.Db.Models.{StoredEvent, StoreSnapshot}
use kxinspect_backend.Db.Store.{
  MutationOutcome, Mutator, Store, WriteOutcome, written, failed_before_replace,
  failed_after_replace, CommitRun, commit, commit_lem, persist, append_events, after_persist,
  after_mutator,
}
use kxinspect_backend.Db.Store.Ring.{RefinesLog}
use kxinspect_backend.Db.Store.Publish.{KeepsStream, commit-RefinesLog}
use kxinspect_backend.Services.ChargeService.Ledger.{CommandContext}
use kxinspect_backend.Services.ChargeService.Reconcile.{reconcile_mutator}
use kxinspect_backend.Services.ChargeService.Commands.{ChargeCommand, charge_mutator}
use kxinspect_backend.Services.ChargeService.Commands.Success.{append_events-entities}
use kxinspect_backend.Services.ChargeService.Tasks.{task_mutator, read_mutator}
use kxinspect_backend.Services.ChargeService.Operator.{RaisedCharge, raise_mutator, resolve_mutator}
use kxinspect_backend.Services.ChargeService.Evolution.{
  IsTraced, Evolves, Evolves-refl, Evolves-trans, Evolves-IsTraced,
}
use kxinspect_backend.Services.ChargeService.Evolution.Stamped.{IsWellFormed}
use kxinspect_backend.Services.ChargeService.Keeps.{
  Kept, Keeps, charge_mutator-Keeps, reconcile_mutator-Keeps,
}
use kxinspect_backend.Services.ChargeService.Keeps.Plain.{
  task_mutator-Keeps, read_mutator-Keeps, raise_mutator-Keeps, resolve_mutator-Keeps,
}

-- The calls of the service that commit.
pub data Request : Type 0 where
  reconcile_now : Request
  apply_charge_command : ChargeCommand → Request
  create_task : (task : MaintenanceTask) (epoch : String) (context : CommandContext) → Request
  mark_notification_read : (notification_id epoch : String) → Request
  dev_raise_charge :
      (notification_id : String) (default_grace : ℤ) (charge : RaisedCharge) → Request
  dev_resolve_charge : (notification_id charge_id : String) (event : ChargeEvent) → Request

-- The clock at the commit, at the start of the call and at the ledger's record, and the disk.
pub record Moment : Type 0 where
  pub commit_at : DateTime
  pub now : DateTime
  pub recorded_at : DateTime
  pub disk : WriteOutcome

-- What the routes hand to the service: student events to the charge command, operator events to
-- the decision, and no cost breakdown to a raise.
abbrev pub IsRouted : Request → Type 0
IsRouted (apply_charge_command cmd) = actor_for cmd.event ≡ some Actor.student
IsRouted (dev_raise_charge _ _ charge) = charge.cost_breakdown ≡ none
IsRouted (dev_resolve_charge _ _ event) = actor_for event ≡ some Actor.operator
IsRouted _ = Unit

-- What a call leaves: the store, and the events that it has published.
abbrev pub Served : Type 0
Served = Store × List StoredEvent

abbrev pub served : {T : Type 0} → CommitRun T → Served
served run = (run.store, run.published)

unfoldable pub serve : Moment → Request → Store → Served
serve m reconcile_now store = served (commit m.commit_at m.disk (reconcile_mutator m.now) store)
serve m (apply_charge_command cmd) store =
    served (commit m.commit_at m.disk (charge_mutator m.now m.recorded_at cmd) store)
serve m (create_task task epoch context) store =
    served (commit m.commit_at m.disk (task_mutator m.recorded_at task epoch context) store)
serve m (mark_notification_read notification_id epoch) store =
    served (commit m.commit_at m.disk (read_mutator notification_id epoch) store)
serve m (dev_raise_charge notification_id default_grace charge) store =
    served
      (commit m.commit_at m.disk (raise_mutator m.now notification_id default_grace charge) store)
serve m (dev_resolve_charge notification_id charge_id event) store =
    served (commit m.commit_at m.disk (resolve_mutator m.now notification_id charge_id event) store)

unfoldable pub serve_all : List (Moment × Request) → Store → Served
serve_all [] store = (store, [])
serve_all ((m, request) ∷ rest) store =
    let first = serve m request store in
    let others = serve_all rest first.0 in (others.0, first.1 ++ others.1)
