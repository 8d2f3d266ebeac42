-- ===== src/Services/ChargeService/Commands/Success.antt =====
-- What a commit of a charge command leaves when it answers afresh.
use kxinspect_backend.Base.{ℕ, ◌≡◌, refl, false, Option, none, some, List, [], ◌∷◌, arith}
use kxinspect_backend.Core.Clock.{DateTime}
use kxinspect_backend.Core.Errors.{Fault, Result, ok}
use kxinspect_backend.Domain.ChargeState.{
  ChargeStatus, AcceptanceOrigin, transition, transition_accepted,
}
use kxinspect_backend.Db.Entities.{Charge}
use kxinspect_backend.Db.Models.{IdempotencyRecord, StoreSnapshot}
use kxinspect_backend.Db.Store.{
  keep_last, DraftEvent, MutationOutcome, append_events, persist, Store, WriteOutcome, written,
  failed_before_replace, failed_after_replace, CommitResult, CommitRun, commit, commit_lem,
  after_mutator, find_entity, ledger_get,
}
use kxinspect_backend.Services.ChargeService.Ledger.{
  CommandContext, CommandResult, replay, replay_record, replayed_outcome, fail_after_reconciliation,
}
use kxinspect_backend.Services.ChargeService.Commands.{
  ChargeCommand, next_charge, success_outcome, success_snapshot, charge_mutator,
}
use kxinspect_backend.Services.ChargeService.Commands.Cases.{
  settled_snapshot, settled_events, CommandCase, replayed, mismatched, wrong_epoch, refused,
  succeeded, charge_mutator_case,
}

pub append_events-entities :
    (now : DateTime) (s : StoreSnapshot) (drafts : List DraftEvent)
    → (append_events now s drafts).0.entities ≡ s.entities
unfolding append_events keep_last
append_events-entities now s [] = refl
append_events-entities now s (d ∷ ds) = refl

pub append_events-idempotency :
    (now : DateTime) (s : StoreSnapshot) (drafts : List DraftEvent)
    → (append_events now s drafts).0.idempotency ≡ s.idempotency
unfolding append_events keep_last
append_events-idempotency now s [] = refl
append_events-idempotency now s (d ∷ ds) = refl

-- A replay is found under the key, with the same scope and digest, and reads the body now.
pub replay_found :
    (s : StoreSnapshot) (context : CommandContext) (o : MutationOutcome CommandResult)
    → replay s context ≡ ok (some o)
    → (found : IdempotencyRecord) × (ledger_get context.idempotency_key s.idempotency ≡ some found)
      × (o ≡ replayed_outcome s found)
unfolding replay
replay_found s context o h = go (ledger_get context.idempotency_key s.idempotency) refl h
  where
    go :
        (x : Option IdempotencyRecord)
        → ledger_get context.idempotency_key s.idempotency ≡ x
        → replay_record s context x ≡ ok (some o)
        → (found : IdempotencyRecord) × (ledger_get context.idempotency_key s.idempotency
            ≡ some found)
          × (o ≡ replayed_outcome s found)
    go none e h = cc
    go (some found) e h = (found, e, ground arith)

-- The charge that a command changed, and the live snapshot afterwards.
pub record Success (now recorded_at : DateTime) (cmd : ChargeCommand) (current : StoreSnapshot)
    (value : CommandResult) (run : CommitRun CommandResult) : Type 0 where
  pub position : ℕ
  pub charge : Charge
  pub to_status : ChargeStatus
  pub origin : Option AcceptanceOrigin
  pub found :
      find_entity
        (λ (c : Charge). c.id)
        cmd.charge_id
        (settled_snapshot now current).entities.charges
      ≡ some (position, charge)
  pub version_ok : charge.version ≡ cmd.expected_version
  pub legal :
      transition charge.status cmd.event
      ≡ transition_accepted charge.status cmd.event to_status origin
  pub value_ok :
      value
      ≡ (success_outcome
          (settled_events now current)
          (next_charge now cmd to_status origin charge)).value
  pub new : StoreSnapshot
  pub live : run.store.snapshot ≡ some new
  pub entities :
      new.entities
      ≡ (success_snapshot recorded_at cmd
          (settled_snapshot now current)
          (settled_events now current)
          position
          (next_charge now cmd to_status origin charge)).entities
  pub ledger :
      new.idempotency
      ≡ (success_snapshot recorded_at cmd
          (settled_snapshot now current)
          (settled_events now current)
          position
          (next_charge now cmd to_status origin charge)).idempotency

module _ (at now recorded_at : DateTime) (write : WriteOutcome) (cmd : ChargeCommand)
    (store : Store) (current : StoreSnapshot) (res : CommitResult CommandResult) where
  abbrev run_of : Result (MutationOutcome CommandResult × StoreSnapshot) → CommitRun CommandResult
  run_of = after_mutator at write store current

  refused-raises :
      (events : List DraftEvent) (f : Fault) (s : StoreSnapshot)
      → ¬ ((run_of (fail_after_reconciliation events f s)).result ≡ ok res)
  unfolding fail_after_reconciliation persist
  refused-raises [] f s h = cc
  refused-raises (e ∷ es) f s h = go write h
    where
      go :
          (w : WriteOutcome)
          → (after_mutator at w store current (fail_after_reconciliation (e ∷ es) f s)).result
            ≡ ok res
          → ⊥
      go written h = cc
      go failed_before_replace h = cc
      go failed_after_replace h = cc

  replayed-contra :
      (found : IdempotencyRecord)
      → (run_of (ok (replayed_outcome current found, current))).result ≡ ok res
      → ¬ (res.value.replayed ≡ false)
  replayed-contra found k f = ground arith

  fresh-Success :
      (w : WriteOutcome) (i : ℕ) (c : Charge) (to_status : ChargeStatus)
      (origin : Option AcceptanceOrigin)
      → find_entity
          (λ (c : Charge). c.id)
          cmd.charge_id
          (settled_snapshot now current).entities.charges
        ≡ some (i, c)
      → c.version ≡ cmd.expected_version
      → transition c.status cmd.event ≡ transition_accepted c.status cmd.event to_status origin
      → let answer : Result (MutationOutcome CommandResult × StoreSnapshot) = ok (
        success_outcome (settled_events now current) (next_charge now cmd to_status origin c),
        success_snapshot recorded_at cmd
            (settled_snapshot now current)
            (settled_events now current)
            i
            (next_charge now cmd to_status origin c),
      ) in
        (after_mutator at w store current answer).result ≡ ok res
        → Success now recorded_at cmd current res.value (after_mutator at w store current answer)
  unfolding persist
  fresh-Success written i c to_status origin found v legal k = record {
    position = i;
    charge = c;
    to_status = to_status;
    origin = origin;
    found = found;
    version_ok = v;
    legal = legal;
    value_ok = ground arith;
    new = _;
    live = refl;
    entities = append_events-entities at _ _;
    ledger = append_events-idempotency at _ _;
  }
  fresh-Success failed_before_replace i c to_status origin found v legal k = absurd (cc)
  fresh-Success failed_after_replace i c to_status origin found v legal k = absurd (cc)

  Success-case :
      (r : Result (MutationOutcome CommandResult × StoreSnapshot))
      → CommandCase now recorded_at cmd current r
      → (run_of r).result ≡ ok res
      → res.value.replayed ≡ false
      → Success now recorded_at cmd current res.value (run_of r)
  Success-case r (replayed o h e) k f =
      let (found, _, p) = replay_found current cmd.context o h in
      absurd (replayed-contra found (rw (e, p) at k) f)
  Success-case r (mismatched x h e) k f = absurd (cc)
  Success-case r (wrong_epoch x h g e) k f = absurd (cc)
  Success-case r (refused x h g w e) k f = absurd (refused-raises _ x _ (rw e at k))
  Success-case r (succeeded i c to origin h g found v legal e) k f =
      rw e (fresh-Success write i c to origin found v legal (rw e at k))

-- A commit of a charge command that answers, and not by a replay, has changed one charge.
pub commit-Success :
    (at now recorded_at : DateTime) (write : WriteOutcome) (cmd : ChargeCommand) (store : Store)
    (current : StoreSnapshot) (res : CommitResult CommandResult)
    → store.snapshot ≡ some current
    → (commit at write (charge_mutator now recorded_at cmd) store).result ≡ ok res
    → res.value.replayed ≡ false
    → Success now recorded_at cmd current res.value
        (commit at write (charge_mutator now recorded_at cmd) store)
commit-Success at now recorded_at write cmd store current res live k f =
    let e = commit_lem at write (charge_mutator now recorded_at cmd) store current live in
    rw e (
      Success-case at now recorded_at write cmd store current res _
        (charge_mutator_case now recorded_at cmd current) (rw e at k) f)
