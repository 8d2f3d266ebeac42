-- ===== src/Services/ChargeService/Reconcile/Laws.antt =====
-- What the deadline reconciliation does to each charge.
use kxinspect_backend.Base.{
  ℕ, zero, suc, get_elem?, ◌+◌, ◌≤◌, ◌≡◌, refl, ap, false, some, List, [], ◌∷◌, map, filter_by, All,
  arith, if◌then◌else◌, Bool-cases, inl, inr,
}
use kxinspect_backend.Core.Clock.{DateTime, format_instant}
use kxinspect_backend.Domain.ChargeState.{accepted, AcceptanceOrigin}
use kxinspect_backend.Db.Entities.{Charge}
use kxinspect_backend.Services.ChargeService.Reconcile.{
  any_event, charge_updated_event, is_elapsed, accept_elapsed, reconcile_charges,
}

-- A charge whose deadline has passed, as the contract describes it: accepted at exactly its
-- deadline, by the deadline, one version on, and otherwise as it was.
abbrev pub settled : DateTime → Charge → Charge
settled now c = record c {
  status = accepted;
  accepted_at = some c.deadline_at;
  acceptance_origin = some AcceptanceOrigin.deadline;
  version = c.version + 1;
  updated_at = format_instant now;
}

pub accept_elapsed-settled : (now : DateTime) (c : Charge) → accept_elapsed now c ≡ settled now c
unfolding accept_elapsed
accept_elapsed-settled now c = refl

-- A reconciliation settles exactly the outstanding charges whose deadline has elapsed, leaves every
-- other charge as it is, and emits one event for each settled charge, in their order, with the
-- version that it has afterwards.
pub reconcile_charges_lem :
    (now : DateTime) (cs : List Charge)
    → ((reconcile_charges now cs).0 ≡ map (λ c. if is_elapsed now c then settled now c else c) cs)
      × ((reconcile_charges now cs).1
          ≡ map (λ c. charge_updated_event (settled now c)) (filter_by (is_elapsed now) cs))
unfolding reconcile_charges
reconcile_charges_lem now [] = (refl, refl)
reconcile_charges_lem now (c ∷ cs) =
    let (charges, events) = reconcile_charges_lem now cs in
    elim (Bool-cases (is_elapsed now c)) [
      | inl e ↦
          rw (e, accept_elapsed-settled now c)
            (
              ap (λ xs. settled now c ∷ xs) charges,
              ap (λ xs. charge_updated_event (settled now c) ∷ xs) events,
            )
      | inr e ↦ rw e (ap (λ xs. c ∷ xs) charges, events)
    ]

settled-is_elapsed : (now later : DateTime) (c : Charge) → is_elapsed later (settled now c) ≡ false
unfolding is_elapsed
settled-is_elapsed now later c = refl

-- After a reconciliation no charge is outstanding with an elapsed deadline.
pub reconcile_charges-none_elapsed :
    (now : DateTime) (cs : List Charge)
    → All (λ c. is_elapsed now c ≡ false) (reconcile_charges now cs).0
unfolding reconcile_charges
reconcile_charges-none_elapsed now [] = tt
reconcile_charges-none_elapsed now (c ∷ cs) = elim (Bool-cases (is_elapsed now c)) [
  | inl e ↦
      rw (e, accept_elapsed-settled now c)
        (settled-is_elapsed now now c, reconcile_charges-none_elapsed now cs)
  | inr e ↦ rw e (e, reconcile_charges-none_elapsed now cs)
]

pub reconcile-no_events :
    (now : DateTime) (cs : List Charge)
    → any_event (reconcile_charges now cs).1 ≡ false
    → (reconcile_charges now cs).0 ≡ cs
unfolding reconcile_charges
reconcile-no_events now [] h = refl
reconcile-no_events now (c ∷ cs) h = elim (Bool-cases (is_elapsed now c)) [
  | inl e ↦ let k = rw e at h in absurd (cc)
  | inr e ↦ let k = rw e at h in rw (e, reconcile-no_events now cs k)
]

pub reconcile_charges_idle :
    (now : DateTime) (cs : List Charge)
    → All (λ c. is_elapsed now c ≡ false) cs
    → reconcile_charges now cs ≡ (cs, [])
unfolding reconcile_charges
reconcile_charges_idle now [] h = refl
reconcile_charges_idle now (c ∷ cs) h = rw (h.0, reconcile_charges_idle now cs h.1)

-- A second pass at the same instant changes no charge and emits no event.
reconcile_charges_idempotent :
    (now : DateTime) (cs : List Charge)
    → reconcile_charges now (reconcile_charges now cs).0 ≡ ((reconcile_charges now cs).0, [])
reconcile_charges_idempotent now cs =
    reconcile_charges_idle now _ (reconcile_charges-none_elapsed now cs)

pub reconcile_charges-ids :
    (now : DateTime) (cs : List Charge)
    → map (λ (c : Charge). c.id) (reconcile_charges now cs).0 ≡ map (λ (c : Charge). c.id) cs
unfolding reconcile_charges accept_elapsed
reconcile_charges-ids now [] = refl
reconcile_charges-ids now (c ∷ cs) = elim (Bool-cases (is_elapsed now c)) [
  | inl e ↦ rw e (ap (λ xs. c.id ∷ xs) (reconcile_charges-ids now cs))
  | inr e ↦ rw e (ap (λ xs. c.id ∷ xs) (reconcile_charges-ids now cs))
]

pub version-le-reconcile_charges :
    (now : DateTime) (cs : List Charge) (i : ℕ) (x y : Charge)
    → get_elem? cs i ≡ some x
    → get_elem? (reconcile_charges now cs).0 i ≡ some y
    → x.version ≤ y.version
unfolding reconcile_charges accept_elapsed
version-le-reconcile_charges now [] i x y h k = ground arith
version-le-reconcile_charges now (c ∷ cs) zero x y h k = elim (Bool-cases (is_elapsed now c)) [
  | inl e ↦ let k' = rw e at k in ground arith
  | inr e ↦ let k' = rw e at k in ground arith
]
version-le-reconcile_charges now (c ∷ cs) (suc i) x y h k = elim (Bool-cases (is_elapsed now c)) [
  | inl e ↦ version-le-reconcile_charges now cs i x y h (rw e at k)
  | inr e ↦ version-le-reconcile_charges now cs i x y h (rw e at k)
]
