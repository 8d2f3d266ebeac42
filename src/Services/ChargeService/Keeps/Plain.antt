-- ===== src/Services/ChargeService/Keeps/Plain.antt =====
-- What the mutators for tasks, notifications and the operator keep.
use kxinspect_backend.Base.{
  ℕ, ◌+◌, ◌≡◌, refl, String, Option, none, some, [], ◌∷◌, ◌++◌, get_elem?, set, All-append, All-set,
  All-get_elem?, arith, Bool-cases, inl, inr,
}
use kxinspect_backend.Base.Int.{ℤ}
use kxinspect_backend.Core.Clock.{DateTime}
use kxinspect_backend.Core.Errors.{Result, ok, raise, ◌>>=◌, ◌>>◌}
use kxinspect_backend.Domain.ChargeState.{
  ChargeStatus, ChargeEvent, Actor, actor_for, AcceptanceOrigin, transition, transition_accepted,
  invalid_transition,
}
use kxinspect_backend.Domain.ChargeState.Lifecycle.{here, transition-cases}
use kxinspect_backend.Domain.Deadline.{DeadlineResult}
use kxinspect_backend.Domain.CostBreakdown.{default_cost_breakdown-sum}
use kxinspect_backend.Db.Entities.{Booking, Charge, MaintenanceTask, AppNotification}
use kxinspect_backend.Db.Models.{task_body, StoreSnapshot}
use kxinspect_backend.Db.Store.{MutationOutcome, find_entity}
use kxinspect_backend.Db.Store.Lookup.{find_entity_lem}
use kxinspect_backend.Services.ChargeService.Ledger.{
  CommandContext, CommandResult, record_success, replay, require_epoch,
}
use kxinspect_backend.Services.ChargeService.Tasks.{
  append_task, fresh_task, task_mutator, read_found, read_mutator, stored_task, with_tasks,
  mark_read, with_notifications,
}
use kxinspect_backend.Services.ChargeService.Operator.{
  RaisedCharge, raised_charge, raise_checked, raise_mutator, decided_charge, decide, decide_found,
  resolve_mutator, deadline_or_fault, store_raised, decision_notification,
}
use kxinspect_backend.Services.ChargeService.Reconcile.{with_charges}
use kxinspect_backend.Services.ChargeService.Evolution.{
  IsTraced, Grows_step, Evolves-set, Evolves-append,
}
use kxinspect_backend.Services.ChargeService.Evolution.Stamped.{
  IsWellFormed, decided_charge-IsWellFormed,
}
use kxinspect_backend.Services.ChargeService.Keeps.{
  Kept, Keeps, untouched, same_stream, ok_snapshot,
}

after_check :
    {A : Type 0} (m : Result (Unit {0})) (k : Result A) (a : A) → (m >> k) ≡ ok a → k ≡ ok a
after_check (ok tt) k a h = h
after_check (raise f) k a h = absurd (cc)

append_task-Kept :
    (at : DateTime) (task : MaintenanceTask) (context : CommandContext) (s : StoreSnapshot)
    (x : Option (ℕ × Booking)) (y : Option (ℕ × MaintenanceTask))
    (o : MutationOutcome CommandResult) (s' : StoreSnapshot)
    → append_task at task context s x y ≡ ok (o, s')
    → Kept s s'
unfolding record_success
append_task-Kept at task context s none y o s' h = absurd (cc)
append_task-Kept at task context s (some b) (some t) o s' h = absurd (cc)
append_task-Kept at task context s (some b) none o s' h =
    let new =
      record_success at (with_tasks s (s.entities.tasks ++ (stored_task task ∷ []))) context
        (task_body (stored_task task)) 201 none 1 in
    rw (ok_snapshot _ _ o new s' refl h) at
      (untouched s new (record { epoch = refl; cursor = refl; evicted = refl; events = refl }) refl)

pub task_mutator-Keeps :
    (at : DateTime) (task : MaintenanceTask) (epoch : String) (context : CommandContext)
    → Keeps (task_mutator at task epoch context)
unfolding task_mutator
task_mutator-Keeps at task epoch context = record { at = λ s. go s (replay s context) }
  where
    go :
        (s : StoreSnapshot) (x : Result (Option (MutationOutcome CommandResult)))
        (o : MutationOutcome CommandResult) (s' : StoreSnapshot)
        → (x >>= fresh_task at task epoch context s) ≡ ok (o, s')
        → Kept s s'
    go s (raise f) o s' h = absurd (cc)
    go s (ok (some outcome)) o s' h =
        let p : s ≡ s' = cc in untouched s s' (rw p same_stream) (rw p refl)
    go s (ok none) o s' h =
        append_task-Kept at task context s _ _ o s' (after_check (require_epoch s epoch) _ _ h)

read_found-Kept :
    (id : String) (s : StoreSnapshot) (x : Option (ℕ × AppNotification))
    (o : MutationOutcome AppNotification) (s' : StoreSnapshot)
    → read_found id s x ≡ ok (o, s')
    → Kept s s'
read_found-Kept id s none o s' h = absurd (cc)
read_found-Kept id s (some (i, n)) o s' h = elim (Bool-cases n.read) [
  | inl e ↦
      let p : s ≡ s' = ok_snapshot _ _ o s s' refl (rw e at h) in
      untouched s s' (rw p same_stream) (rw p refl)
  | inr e ↦
      let new = with_notifications s (set s.entities.notifications i (mark_read n)) in
      rw (ok_snapshot _ _ o new s' refl (rw e at h)) at (
        untouched s new (record { epoch = refl; cursor = refl; evicted = refl; events = refl })
          refl)
]

pub read_mutator-Keeps : (id epoch : String) → Keeps (read_mutator id epoch)
unfolding read_mutator
read_mutator-Keeps id epoch = record {
  at = λ s o s' h. read_found-Kept id s _ o s' (after_check (require_epoch s epoch) _ _ h);
}

raised_charge-IsTraced :
    (now : DateTime) (charge : RaisedCharge) (grace : ℤ) (deadline : DateTime)
    → IsTraced (raised_charge now charge grace deadline)
unfolding raised_charge
raised_charge-IsTraced now charge grace deadline = record {
  moves = 0;
  trace = here;
  counted = omega arith;
}

raised_charge-IsWellFormed :
    (now : DateTime) (charge : RaisedCharge) (grace : ℤ) (deadline : DateTime)
    → charge.cost_breakdown ≡ none
    → IsWellFormed (raised_charge now charge grace deadline)
unfolding raised_charge
raised_charge-IsWellFormed now charge grace deadline h = record {
  stamped = refl;
  itemised = rw h (default_cost_breakdown-sum charge.amount_minor);
}

module _ (now : DateTime) (id : String) (default_grace : ℤ) (charge : RaisedCharge)
    (plain : charge.cost_breakdown ≡ none) where
  store_raised-Kept :
      (s : StoreSnapshot) (grace : ℤ) (d : DeadlineResult) (o : MutationOutcome Charge)
      (s' : StoreSnapshot)
      → (deadline_or_fault d >>= λ deadline.
          ok (store_raised now id s (raised_charge now charge grace deadline)))
        ≡ ok (o, s')
      → Kept s s'
  store_raised-Kept s grace DeadlineResult.value_error o s' h = absurd (cc)
  store_raised-Kept s grace DeadlineResult.overflow_error o s' h = absurd (cc)
  store_raised-Kept s grace (DeadlineResult.at deadline) o s' h =
      let new = (store_raised now id s (raised_charge now charge grace deadline)).1 in
      let kept : Kept s new = record {
        stream = record { epoch = refl; cursor = refl; evicted = refl; events = refl };
        evolves =
            Evolves-append s.entities.charges _
              (raised_charge-IsTraced now charge grace deadline, tt);
        well_formed = λ w.
            All-append IsWellFormed s.entities.charges _ w
              (raised_charge-IsWellFormed now charge grace deadline plain, tt);
      } in
      rw (ok_snapshot _ _ o new s' refl h) at kept

  raise_checked-Kept :
      (s : StoreSnapshot) (x : Option (ℕ × Booking)) (y : Option (ℕ × Charge))
      (o : MutationOutcome Charge) (s' : StoreSnapshot)
      → raise_checked now id default_grace charge s x y ≡ ok (o, s')
      → Kept s s'
  raise_checked-Kept s none y o s' h = absurd (cc)
  raise_checked-Kept s (some b) (some c) o s' h = absurd (cc)
  raise_checked-Kept s (some b) none o s' h = store_raised-Kept s _ _ o s' h

  pub raise_mutator-Keeps : Keeps (raise_mutator now id default_grace charge)
  unfolding raise_mutator
  raise_mutator-Keeps = record { at = λ s. raise_checked-Kept s _ _ }

decided_charge-facts :
    (now : DateTime) (to : ChargeStatus) (o : Option AcceptanceOrigin) (c : Charge)
    → ((decided_charge now to o c).status ≡ to)
      × ((decided_charge now to o c).version ≡ c.version + 1)
      × ((decided_charge now to o c).facts ≡ c.facts)
unfolding decided_charge
decided_charge-facts now to o c = ground arith

module _ (now : DateTime) (id charge_id : String) (event : ChargeEvent)
    (operator : actor_for event ≡ some Actor.operator) where
  decided-Kept :
      (s : StoreSnapshot) (i : ℕ) (c : Charge) (to : ChargeStatus)
      (origin : Option AcceptanceOrigin)
      → get_elem? s.entities.charges i ≡ some c
      → transition c.status event ≡ transition_accepted c.status event to origin
      → (o : MutationOutcome Charge) (s' : StoreSnapshot)
      → decide now id charge_id s i c event (transition_accepted c.status event to origin)
        ≡ ok (o, s')
      → Kept s s'
  decided-Kept s i c to origin at_i legal o s' h =
      let f = decided_charge-facts now to origin c in
      let new =
        with_notifications
          (with_charges s (set s.entities.charges i (decided_charge now to origin c)))
          (s.entities.notifications ++ (decision_notification now id to charge_id ∷ [])) in
      let kept : Kept s new = record {
        stream = record { epoch = refl; cursor = refl; evicted = refl; events = refl };
        evolves =
            Evolves-set _ i c _ at_i
              (Grows_step c (decided_charge now to origin c) event to origin legal f.0 f.1 f.2);
        well_formed = λ w. All-set IsWellFormed _ i _ w (
            decided_charge-IsWellFormed now event to origin c operator legal
              (All-get_elem? IsWellFormed _ i c at_i w));
      } in
      rw (ok_snapshot _ _ o new s' refl h) at kept

  refused-contra :
      (s : StoreSnapshot) (i : ℕ) (c : Charge) (o : MutationOutcome Charge) (s' : StoreSnapshot)
      → transition c.status event ≡ invalid_transition c.status event
      → ¬ (decide now id charge_id s i c event (transition c.status event) ≡ ok (o, s'))
  refused-contra s i c o s' t h = let k = rw t at h in cc

  decide_found-Kept :
      (s : StoreSnapshot) (x : Option (ℕ × Charge))
      → find_entity (λ (c : Charge). c.id) charge_id s.entities.charges ≡ x
      → (o : MutationOutcome Charge) (s' : StoreSnapshot)
      → decide_found now id charge_id event s x ≡ ok (o, s')
      → Kept s s'
  decide_found-Kept s none found o s' h = absurd (cc)
  decide_found-Kept s (some (i, c)) found o s' h =
      let at_i = (find_entity_lem (λ (c : Charge). c.id) charge_id _ i c found).0 in
      elim (transition-cases c.status event) [
        | inl t ↦ absurd (refused-contra s i c o s' t h)
        | inr (to, origin, t) ↦ decided-Kept s i c to origin at_i t o s' (rw t at h)
      ]

  pub resolve_mutator-Keeps : Keeps (resolve_mutator now id charge_id event)
  unfolding resolve_mutator
  resolve_mutator-Keeps = record { at = λ s. decide_found-Kept s _ refl }
