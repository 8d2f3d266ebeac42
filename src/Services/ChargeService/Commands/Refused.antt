-- ===== src/Services/ChargeService/Commands/Refused.antt =====
-- A charge command of app/services/charge_service.py that is refused after the reconciliation: the
-- error that it defers, and the commit before.
use kxinspect_backend.Base.{
  ℕ, ◌+◌, ◌≡◌, ◌⊎◌, String, Option, some, List, [], map, filter_by, if◌then◌else◌,
}
use kxinspect_backend.Core.Clock.{DateTime}
use kxinspect_backend.Db.Entities.{Charge}
use kxinspect_backend.Db.Models.{StoredEvent, StoreSnapshot}
use kxinspect_backend.Db.Store.{DraftEvent, Store, CommitRun}
use kxinspect_backend.Services.ChargeService.Ledger.{CommandResult}
use kxinspect_backend.Services.ChargeService.Reconcile.{is_elapsed}
use kxinspect_backend.Services.ChargeService.Reconcile.Laws.{settled}

-- What a client reads an event for: the resource, and the version that it is at.
abbrev pub Announced : Type 0
Announced = String × Option ℕ

abbrev pub announced : List StoredEvent → List Announced
announced = map (λ (e : StoredEvent). (e.entity_id, e.entity_version))

-- The charges that are due, each with the version that it has after its settlement.
abbrev pub due : DateTime → List Charge → List Announced
due now cs = map (λ (c : Charge). (c.id, some (c.version + 1))) (filter_by (is_elapsed now) cs)

-- Every charge that is due is settled, and every other stands as it was.
abbrev pub all_settled : DateTime → List Charge → List Charge
all_settled now = map (λ c. if is_elapsed now c then settled now c else c)

abbrev drafted : List DraftEvent → List Announced
drafted = map (λ (d : DraftEvent). (d.entity_id, d.entity_version))

-- What a refused command leaves: the entities with the charges settled, the ledger as it was, an
-- event for each settled charge; and a new revision, on the disk too, unless nothing was due.
pub record Settles (now : DateTime) (store : Store) (s : StoreSnapshot)
    (run : CommitRun CommandResult) : Type 0 where
  pub new : StoreSnapshot
  pub live : run.store.snapshot ≡ some new
  pub entities : new.entities ≡ record s.entities { charges = all_settled now s.entities.charges }
  pub ledger : new.idempotency ≡ s.idempotency
  pub events : announced run.published ≡ due now s.entities.charges
  pub durable :
      ((due now s.entities.charges ≡ []) × (run.store ≡ store))
      ⊎ ((new.store_revision ≡ s.store_revision + 1) × (run.store.disk ≡ some new))
