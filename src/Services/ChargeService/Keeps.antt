-- ===== src/Services/ChargeService/Keeps.antt =====
-- What every mutator of the charge service keeps of the working copy.
pub mod Plain
use kxinspect_backend.Base.{
  ℕ, ◌≡◌, refl, sym, ◌∙◌, ap, String, Bool, true, false, Option, none, some, List, [], ◌∷◌, ◌++◌,
  get_elem?, set, All, All-append, All-set, All-get_elem?, arith, Bool-cases, inl, inr,
}
use kxinspect_backend.Core.Clock.{DateTime, parse_instant}
use kxinspect_backend.Core.Errors.{Fault, Result, ok, raise}
use kxinspect_backend.Domain.ChargeState.{
  ChargeStatus, ChargeEvent, Actor, actor_for, AcceptanceOrigin, transition, transition_accepted,
}
use kxinspect_backend.Db.Entities.{Charge}
use kxinspect_backend.Db.Models.{StoreSnapshot}
use kxinspect_backend.Db.Store.{MutationOutcome, Mutator, DraftEvent, find_entity}
use kxinspect_backend.Db.Store.Publish.{SameStream}
use kxinspect_backend.Services.ChargeService.Ledger.{
  CommandResult, fail_after_reconciliation, record_success,
}
use kxinspect_backend.Services.ChargeService.Reconcile.{reconcile_deadlines, reconcile_mutator}
use kxinspect_backend.Services.ChargeService.Commands.{
  ChargeCommand, charge_mutator, next_charge, success_snapshot,
}
use kxinspect_backend.Services.ChargeService.Commands.Cases.{
  settled_snapshot, settled_events, CommandCase, replayed, mismatched, wrong_epoch, refused,
  succeeded, charge_mutator_case,
}
use kxinspect_backend.Services.ChargeService.Commands.Retry.{next_charge-facts}
use kxinspect_backend.Db.Store.Lookup.{find_entity_lem}
use kxinspect_backend.Services.ChargeService.Evolution.{
  Grows, Grows_step, Evolves, Evolves-refl, Evolves-trans, Evolves-set, Evolves-append,
  reconcile_charges-Evolves,
}
use kxinspect_backend.Services.ChargeService.Evolution.Stamped.{
  IsWellFormed, next_charge-IsWellFormed, reconcile_charges-IsWellFormed,
}

-- The stream is as it was, the charges have evolved, and they stay well formed.
pub record Kept (s s' : StoreSnapshot) : Type 0 where
  pub stream : SameStream s s'
  pub evolves : Evolves s.entities.charges s'.entities.charges
  pub well_formed : All IsWellFormed s.entities.charges → All IsWellFormed s'.entities.charges

pub record Keeps {T : Type 0} (m : Mutator T) : Type 0 where
  pub at :
      (s : StoreSnapshot) (o : MutationOutcome T) (s' : StoreSnapshot)
      → m s ≡ ok (o, s')
      → Kept s s'

abbrev pub same_stream : {s : StoreSnapshot} → SameStream s s
same_stream = record { epoch = refl; cursor = refl; evicted = refl; events = refl }

-- A snapshot that differs in neither the stream nor the charges.
pub untouched :
    (s s' : StoreSnapshot) → SameStream s s' → s'.entities.charges ≡ s.entities.charges → Kept s s'
untouched s s' same e = record {
  stream = same;
  evolves = rw e (Evolves-refl s.entities.charges);
  well_formed = λ h. rw e h;
}

settled-Kept : (now : DateTime) (s : StoreSnapshot) → Kept s (settled_snapshot now s)
unfolding reconcile_deadlines
settled-Kept now s = record {
  stream = record { epoch = refl; cursor = refl; evicted = refl; events = refl };
  evolves = reconcile_charges-Evolves now s.entities.charges;
  well_formed = reconcile_charges-IsWellFormed now s.entities.charges;
}

pub reconcile_mutator-Keeps : (now : DateTime) → Keeps (reconcile_mutator now)
unfolding reconcile_mutator
reconcile_mutator-Keeps now = record {
  at = λ s o s' e.
      let p : settled_snapshot now s ≡ s' = ground arith in rw p at (settled-Kept now s);
}

pub ok_snapshot :
    {T : Type 0} (r : Result (MutationOutcome T × StoreSnapshot)) (o p : MutationOutcome T)
    (s s' : StoreSnapshot)
    → r ≡ ok (o, s)
    → r ≡ ok (p, s')
    → s ≡ s'
ok_snapshot r o p s s' h k = cc

fail_after_reconciliation-snapshot :
    (events : List DraftEvent) (f : Fault) (s : StoreSnapshot) (o : MutationOutcome CommandResult)
    (s' : StoreSnapshot)
    → fail_after_reconciliation events f s ≡ ok (o, s')
    → s ≡ s'
unfolding fail_after_reconciliation
fail_after_reconciliation-snapshot [] f s o s' h = absurd (cc)
fail_after_reconciliation-snapshot (e ∷ es) f s o s' h = cc

module _ (now recorded_at : DateTime) (cmd : ChargeCommand) where
  next_charge-Grows :
      (c : Charge) (to : ChargeStatus) (o : Option AcceptanceOrigin)
      → transition c.status cmd.event ≡ transition_accepted c.status cmd.event to o
      → Grows c (next_charge now cmd to o c)
  next_charge-Grows c to o legal =
      let f = next_charge-facts now cmd to o c in
      Grows_step c (next_charge now cmd to o c) cmd.event to o legal f.2 f.1 f.0

  -- A charge of the settled snapshot, replaced by its successor, with any ledger.
  success-Kept :
      (student : actor_for cmd.event ≡ some Actor.student) (s s' : StoreSnapshot) (i : ℕ)
      (c : Charge) (to : ChargeStatus) (o : Option AcceptanceOrigin)
      → find_entity (λ (c : Charge). c.id) cmd.charge_id (settled_snapshot now s).entities.charges
        ≡ some (i, c)
      → transition c.status cmd.event ≡ transition_accepted c.status cmd.event to o
      → SameStream s s'
      → s'.entities.charges
        ≡ set (settled_snapshot now s).entities.charges i (next_charge now cmd to o c)
      → Kept s s'
  success-Kept student s s' i c to o found legal same e =
      let k = settled-Kept now s in
      let at_i = (find_entity_lem (λ (c : Charge). c.id) cmd.charge_id _ i c found).0 in
      record {
        stream = same;
        evolves =
            Evolves-trans k.evolves
              (rw e (Evolves-set _ i c _ at_i (next_charge-Grows c to o legal)));
        well_formed = λ h.
            let w = k.well_formed h in
            rw e (
              All-set IsWellFormed _ i _ w (
                next_charge-IsWellFormed now cmd to o c student legal
                  (All-get_elem? IsWellFormed _ i c at_i w)));
      }

  case-Kept :
      (student : actor_for cmd.event ≡ some Actor.student) (s : StoreSnapshot)
      (r : Result (MutationOutcome CommandResult × StoreSnapshot))
      → CommandCase now recorded_at cmd s r
      → (o : MutationOutcome CommandResult) (s' : StoreSnapshot) → r ≡ ok (o, s')
      → Kept s s'
  unfolding record_success reconcile_deadlines
  case-Kept student s r (replayed x h e) o s' k =
      let p : s ≡ s' = cc in untouched s s' (rw p same_stream) (rw p refl)
  case-Kept student s r (mismatched f h e) o s' k = absurd (cc)
  case-Kept student s r (wrong_epoch f h g e) o s' k = absurd (cc)
  case-Kept student s r (refused f h g w e) o s' k =
      let p = fail_after_reconciliation-snapshot _ f _ o s' (rw e at k) in
      rw p at (settled-Kept now s)
  case-Kept student s r (succeeded i c to origin h g found v legal e) o s' k =
      let new =
        success_snapshot recorded_at cmd (settled_snapshot now s) (settled_events now s) i
          (next_charge now cmd to origin c) in
      let p = ok_snapshot r _ o new s' e k in
      rw p at (
        success-Kept student s new i c to origin found legal
          (record { epoch = refl; cursor = refl; evicted = refl; events = refl }) refl)

  pub charge_mutator-Keeps :
      actor_for cmd.event ≡ some Actor.student → Keeps (charge_mutator now recorded_at cmd)
  charge_mutator-Keeps student = record {
    at = λ s. case-Kept student s _ (charge_mutator_case now recorded_at cmd s);
  }
