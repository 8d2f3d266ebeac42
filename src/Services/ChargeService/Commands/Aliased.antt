-- ===== src/Services/ChargeService/Commands/Aliased.antt =====
-- The recorded response of a command is the charge of the state itself, so it changes with it.
use kxinspect_backend.Base.{
  ℕ, ◌<◌, ◌≤◌, ◌≡◌, ◌≢◌, refl, sym, ap, ◌∙◌, false, some, map, get_elem?, arith,
}
use kxinspect_backend.Core.Clock.{DateTime}
use kxinspect_backend.Core.Errors.{ok}
use kxinspect_backend.Db.Entities.{Charge}
use kxinspect_backend.Db.Models.{StoreSnapshot}
use kxinspect_backend.Db.Store.{Store, WriteOutcome, CommitResult, CommitRun, commit, ledger_get}
use kxinspect_backend.Db.Store.Lookup.{ledger_get-ledger_set_ne, find_entity_ids}
use kxinspect_backend.Services.ChargeService.Ledger.{CommandResult, charge_or_empty, body_value}
use kxinspect_backend.Services.ChargeService.Reconcile.{reconcile_deadlines}
use kxinspect_backend.Services.ChargeService.Reconcile.Laws.{
  reconcile_charges-ids, version-le-reconcile_charges,
}
use kxinspect_backend.Services.ChargeService.Commands.{ChargeCommand, charge_mutator}
use kxinspect_backend.Services.ChargeService.Commands.Cases.{settled_snapshot}
use kxinspect_backend.Services.ChargeService.Commands.Success.{Success, commit-Success}
use kxinspect_backend.Services.ChargeService.Commands.Retry.{
  Recorded, commit-Replays, next_charge-facts, response_version, changed, made_record,
  Success-ledger, Success-Recorded, Success-changed, Success-body, Success-ids, found_at,
}

settled-ids :
    (now : DateTime) (s : StoreSnapshot)
    → map (λ (c : Charge). c.id) (settled_snapshot now s).entities.charges
      ≡ map (λ (c : Charge). c.id) s.entities.charges
unfolding reconcile_deadlines
settled-ids now s = reconcile_charges-ids now s.entities.charges

version-le-settled :
    (now : DateTime) (s : StoreSnapshot) (i : ℕ) (x y : Charge)
    → get_elem? s.entities.charges i ≡ some x
    → get_elem? (settled_snapshot now s).entities.charges i ≡ some y
    → x.version ≤ y.version
unfolding reconcile_deadlines
version-le-settled now s i x y h k = version-le-reconcile_charges now s.entities.charges i x y h k

-- Two successes on one charge, the second on the state that the first left.
module _ {now₁ rec₁ now₂ rec₂ : DateTime} {first second : ChargeCommand} {current : StoreSnapshot}
    {value₁ value₂ : CommandResult} {run₁ run₂ : CommitRun CommandResult}
    (h₁ : Success now₁ rec₁ first current value₁ run₁)
    (h₂ : Success now₂ rec₂ second h₁.new value₂ run₂)
    (same : first.charge_id ≡ second.charge_id) where
  same_position : h₁.position ≡ h₂.position
  same_position =
      find_entity_ids (λ (c : Charge). c.id) second.charge_id
        (settled_snapshot now₁ current).entities.charges
        (settled_snapshot now₂ h₁.new).entities.charges h₁.position h₂.position h₁.charge h₂.charge
        (settled-ids now₁ current ∙ (sym (Success-ids h₁) ∙ sym (settled-ids now₂ h₁.new)))
        (rw same at h₁.found) h₂.found

  version_grows : (changed h₁).version < (changed h₂).version
  version_grows =
      let v₁ = (next_charge-facts now₁ first h₁.to_status h₁.origin h₁.charge).1 in
      let v₂ = (next_charge-facts now₂ second h₂.to_status h₂.origin h₂.charge).1 in
      let at₁ = rw same_position at (Success-changed h₁) in
      let le =
        version-le-settled now₂ h₁.new h₂.position (changed h₁) h₂.charge at₁ (found_at h₂) in
      omega arith

  still_Recorded :
      second.context.idempotency_key ≢ first.context.idempotency_key
      → Recorded first h₂.new (made_record h₁)
  still_Recorded other = record {
    held =
        ap (ledger_get first.context.idempotency_key) (Success-ledger h₂)
        ∙ (ledger_get-ledger_set_ne _ _ _ _ other ∙ (Success-Recorded h₁).held);
    same_scope = refl;
    same_digest = refl;
  }

  -- The body of the first record, read after the second command.
  shown_body : body_value h₂.new (made_record h₁).response_body ≡ value₂.body
  unfolding body_value
  shown_body =
      ap (λ i. charge_or_empty (get_elem? h₂.new.entities.charges i)) same_position
      ∙ Success-body h₂

  response_grows : response_version value₁.body < response_version value₂.body
  response_grows = rw (h₁.value_ok, h₂.value_ok) version_grows

-- Two commands that answer afresh on one charge, under different keys, the second after the first:
-- a retry of the first is then answered with the response of the second, which has a higher
-- version than the response that the first command had.
pub retry_shows_later_state :
    (at₁ now₁ rec₁ at₂ now₂ rec₂ at₃ now₃ rec₃ : DateTime) (disk₁ disk₂ disk₃ : WriteOutcome)
    (first second : ChargeCommand) (store : Store) (current : StoreSnapshot)
    (res₁ res₂ : CommitResult CommandResult)
    → store.snapshot ≡ some current
    → let run₁ = commit at₁ disk₁ (charge_mutator now₁ rec₁ first) store in
      let run₂ = commit at₂ disk₂ (charge_mutator now₂ rec₂ second) run₁.store in
      let run₃ = commit at₃ disk₃ (charge_mutator now₃ rec₃ first) run₂.store in
      run₁.result ≡ ok res₁
      → res₁.value.replayed ≡ false
      → run₂.result ≡ ok res₂
      → res₂.value.replayed ≡ false
      → first.charge_id ≡ second.charge_id
      → second.context.idempotency_key ≢ first.context.idempotency_key
      → (answer : CommitResult CommandResult) × (run₃.result ≡ ok answer)
        × (answer.value.body ≡ res₂.value.body)
        × (response_version res₁.value.body < response_version answer.value.body)
retry_shows_later_state at₁ now₁ rec₁ at₂ now₂ rec₂ at₃ now₃ rec₃ disk₁ disk₂ disk₃ first second
      store current res₁ res₂ live k₁ f₁ k₂ f₂ same other =
    let h₁ = commit-Success at₁ now₁ rec₁ disk₁ first store current res₁ live k₁ f₁ in
    let h₂ = commit-Success at₂ now₂ rec₂ disk₂ second _ h₁.new res₂ h₁.live k₂ f₂ in
    let r =
      commit-Replays at₃ now₃ rec₃ disk₃ first _ h₂.new h₂.live (made_record h₁)
        (still_Recorded h₁ h₂ same other) in
    let body : r.answer.value.body ≡ res₂.value.body = r.body ∙ shown_body h₁ h₂ same in
    (r.answer, r.result, body, rw body (response_grows h₁ h₂ same))
