-- ===== src/Services/ChargeService/Commands/Retry.antt =====
-- Retries of a charge command under its idempotency key.
use kxinspect_backend.Base.{
  ℕ, ◌+◌, ◌≡◌, refl, sym, ap, ◌∙◌, true, false, Option, some, [], map, get_elem?, set, eq_refl,
  arith, length, get_elem?-set_self, map-set_same,
}
use kxinspect_backend.Core.Clock.{DateTime, format_instant}
use kxinspect_backend.Core.Errors.{ok}
use kxinspect_backend.Domain.ChargeState.{ChargeStatus, AcceptanceOrigin}
use kxinspect_backend.Db.Entities.{Charge, ChargeFacts, Entities}
use kxinspect_backend.Db.Models.{shared_charge, IdempotencyRecord, StoreSnapshot}
use kxinspect_backend.Db.Store.{
  Store, WriteOutcome, CommitResult, CommitRun, commit, commit_lem, ledger_get, ledger_set,
}
use kxinspect_backend.Db.Store.Lookup.{ledger_get-ledger_set_self, find_entity_lem}
use kxinspect_backend.Services.ChargeService.Ledger.{
  CommandResult, Response, charge_response, charge_or_empty, body_value, replay, replayed_outcome,
  record_success, pending_ids,
}
use kxinspect_backend.Services.ChargeService.Reconcile.{reconcile_deadlines}
use kxinspect_backend.Services.ChargeService.Reconcile.Laws.{reconcile_charges-ids}
use kxinspect_backend.Services.ChargeService.Commands.{
  ChargeCommand, next_charge, success_events, charge_mutator,
}
use kxinspect_backend.Services.ChargeService.Commands.Cases.{settled_snapshot, settled_events}
use kxinspect_backend.Services.ChargeService.Commands.Success.{Success, commit-Success}

-- A record of the command in the ledger.
pub record Recorded (cmd : ChargeCommand) (s : StoreSnapshot) (found : IdempotencyRecord)
    : Type 0 where
  pub held : ledger_get cmd.context.idempotency_key s.idempotency ≡ some found
  pub same_scope : found.scope ≡ cmd.context.scope
  pub same_digest : found.request_digest ≡ cmd.context.request_digest

-- What a run answers and leaves when it replays a record.
pub record Replays (store : Store) (s : StoreSnapshot) (found : IdempotencyRecord)
    (run : CommitRun CommandResult) : Type 0 where
  pub answer : CommitResult CommandResult
  pub result : run.result ≡ ok answer
  pub body : answer.value.body ≡ body_value s found.response_body
  pub status_code : answer.value.status_code ≡ found.status_code
  pub replayed : answer.value.replayed ≡ true
  pub store_kept : run.store ≡ store
  pub published : run.published ≡ []

module _ (at now recorded_at : DateTime) (write : WriteOutcome) (cmd : ChargeCommand)
    (store : Store) (s : StoreSnapshot) (live : store.snapshot ≡ some s) where
  replay_of_record :
      (found : IdempotencyRecord)
      → Recorded cmd s found
      → charge_mutator now recorded_at cmd s ≡ ok (replayed_outcome s found, s)
  unfolding charge_mutator replay
  replay_of_record found h = rw (
    h.held,
    h.same_scope,
    h.same_digest,
    eq_refl cmd.context.scope,
    eq_refl cmd.context.request_digest,
  )

  pub commit-Replays :
      (found : IdempotencyRecord)
      → Recorded cmd s found
      → Replays store s found (commit at write (charge_mutator now recorded_at cmd) store)
  commit-Replays found h =
      rw
        (
          commit_lem at write (charge_mutator now recorded_at cmd) store s live,
          replay_of_record found h,
        )
        (record {
          answer = _;
          result = refl;
          body = refl;
          status_code = refl;
          replayed = refl;
          store_kept = refl;
          published = refl;
        })

pub next_charge-facts :
    (now : DateTime) (cmd : ChargeCommand) (to_status : ChargeStatus)
    (origin : Option AcceptanceOrigin) (c : Charge)
    → ((next_charge now cmd to_status origin c).facts ≡ c.facts)
      × ((next_charge now cmd to_status origin c).version ≡ c.version + 1)
      × ((next_charge now cmd to_status origin c).status ≡ to_status)
unfolding next_charge
next_charge-facts now cmd to_status origin c = ground arith

command_result_ext :
    (a b : CommandResult)
    → a.body ≡ b.body
    → a.status_code ≡ b.status_code
    → a.replayed ≡ b.replayed
    → a ≡ b
command_result_ext a b p q r = λ i. record { body = p i; status_code = q i; replayed = r i }

-- The version of the charge in a response.
abbrev pub response_version : Response → ℕ
response_version (charge_response c) = c.version
response_version _ = 0

-- The record that a success leaves.
abbrev pub success_record : DateTime → ChargeCommand → ℕ → Charge → ℕ → IdempotencyRecord
success_record recorded_at cmd position charge event_count = record {
  key = cmd.context.idempotency_key;
  scope = cmd.context.scope;
  request_digest = cmd.context.request_digest;
  status_code = 200;
  response_body = shared_charge position;
  aggregate_version = some charge.version;
  event_ids = pending_ids 1 event_count;
  created_at = format_instant recorded_at;
}

module _ {now recorded_at : DateTime} {cmd : ChargeCommand} {current : StoreSnapshot}
    {value : CommandResult} {run : CommitRun CommandResult}
    (h : Success now recorded_at cmd current value run) where
  abbrev pub changed : Charge
  changed = next_charge now cmd h.to_status h.origin h.charge

  abbrev pub made_record : IdempotencyRecord
  made_record =
      success_record recorded_at cmd h.position changed
        (length (success_events (settled_events now current) changed))

  pub Success-ledger :
      h.new.idempotency ≡ ledger_set cmd.context.idempotency_key made_record current.idempotency
  unfolding reconcile_deadlines record_success
  Success-ledger = h.ledger

  pub Success-Recorded : Recorded cmd h.new made_record
  Success-Recorded = record {
    held = rw (Success-ledger, ledger_get-ledger_set_self);
    same_scope = refl;
    same_digest = refl;
  }

  pub Success-charges :
      h.new.entities.charges
      ≡ set (settled_snapshot now current).entities.charges h.position changed
  unfolding record_success
  Success-charges = ap (λ (e : Entities). e.charges) h.entities

  pub found_at :
      get_elem? (settled_snapshot now current).entities.charges h.position ≡ some h.charge
  found_at =
      (find_entity_lem (λ (c : Charge). c.id) cmd.charge_id
        (settled_snapshot now current).entities.charges h.position h.charge h.found).0

  pub Success-changed : get_elem? h.new.entities.charges h.position ≡ some changed
  Success-changed = rw Success-charges (get_elem?-set_self _ h.position changed h.charge found_at)

  pub Success-body : body_value h.new made_record.response_body ≡ value.body
  unfolding body_value
  Success-body =
      ap charge_or_empty Success-changed ∙ sym (ap (λ (v : CommandResult). v.body) h.value_ok)

  pub Success-ids :
      map (λ (c : Charge). c.id) h.new.entities.charges
      ≡ map (λ (c : Charge). c.id) current.entities.charges
  unfolding reconcile_deadlines
  Success-ids =
      ap (map (λ (c : Charge). c.id)) Success-charges
      ∙ (map-set_same (λ (c : Charge). c.id) _ h.position changed h.charge found_at
            (ap (λ (f : ChargeFacts). f.id)
              (next_charge-facts now cmd h.to_status h.origin h.charge).0)
          ∙ reconcile_charges-ids now current.entities.charges)

-- If a charge command is answered afresh, then the same command directly after it, at whatever
-- instants and whatever the disk would do, gets the same response, marked as replayed, with status
-- 200; the store is not changed and nothing is published.
pub retry_after_success :
    (at now recorded_at at' now' recorded_at' : DateTime) (write write' : WriteOutcome)
    (cmd : ChargeCommand) (store : Store) (current : StoreSnapshot)
    (res : CommitResult CommandResult)
    → store.snapshot ≡ some current
    → (commit at write (charge_mutator now recorded_at cmd) store).result ≡ ok res
    → res.value.replayed ≡ false
    → let first = commit at write (charge_mutator now recorded_at cmd) store in
      let again = commit at' write' (charge_mutator now' recorded_at' cmd) first.store in
      (answer : CommitResult CommandResult) × (again.result ≡ ok answer)
      × (answer.value ≡ record { body = res.value.body; status_code = 200; replayed = true })
      × (again.store ≡ first.store)
      × (again.published ≡ [])
retry_after_success at now recorded_at at' now' recorded_at' write write' cmd store current res live
      k f =
    let h = commit-Success at now recorded_at write cmd store current res live k f in
    let r =
      commit-Replays at' now' recorded_at' write' cmd _ h.new h.live (made_record h)
        (Success-Recorded h) in
    (
      r.answer,
      r.result,
      command_result_ext r.answer.value _ (r.body ∙ Success-body h) r.status_code r.replayed,
      r.store_kept,
      r.published,
    )
