-- ===== src/Services/ChargeService/Evolution/Stamped.antt =====
-- Which instants and which acceptance origin a charge carries, by its status.
use kxinspect_backend.Base.{
  ◌≡◌, Bool, true, false, Option, none, some, List, [], ◌∷◌, All, arith, Bool-cases, inl, inr,
}
use kxinspect_backend.Core.Clock.{DateTime}
use kxinspect_backend.Domain.ChargeState.{
  ChargeStatus, outstanding, accepted, contested, resolved, paid, ChargeEvent, Actor, actor_for,
  AcceptanceOrigin, transition, transition_accepted,
}
use kxinspect_backend.Domain.CostBreakdown.{breakdown_total}
use kxinspect_backend.Db.Entities.{Charge}
use kxinspect_backend.Services.ChargeService.Reconcile.{
  is_elapsed, accept_elapsed, reconcile_charges,
}
use kxinspect_backend.Services.ChargeService.Commands.{ChargeCommand, next_charge}
use kxinspect_backend.Services.ChargeService.Operator.{decided_charge}

abbrev pub has {ℓ} : {A : Type ℓ} → Option A → Bool
has none = false
has (some _) = true

-- Whether accepted, contested, resolved and paid have an instant.
pub record Marks : Type 0 where
  pub was_accepted : Bool
  pub was_contested : Bool
  pub was_resolved : Bool
  pub was_paid : Bool

abbrev marks : Bool → Bool → Bool → Bool → Option Marks
marks a c r p =
    some (record { was_accepted = a; was_contested = c; was_resolved = r; was_paid = p })

-- The marks that a status goes with: an acceptance by the operator follows a contest, any other
-- does not, and a payment keeps what the acceptance left.
abbrev pub expected_marks : ChargeStatus → Option AcceptanceOrigin → Option Marks
expected_marks outstanding none = marks false false false false
expected_marks contested none = marks false true false false
expected_marks resolved none = marks false true true false
expected_marks accepted (some AcceptanceOrigin.operator) = marks true true false false
expected_marks accepted (some _) = marks true false false false
expected_marks paid (some AcceptanceOrigin.operator) = marks true true false true
expected_marks paid (some _) = marks true false false true
expected_marks _ _ = none

abbrev pub marks_of : Charge → Marks
marks_of c = record {
  was_accepted = has c.accepted_at;
  was_contested = has c.contested_at;
  was_resolved = has c.resolved_at;
  was_paid = has c.paid_at;
}

-- The instants and the origin fit the status, and the breakdown adds up to the amount.
pub record IsWellFormed (c : Charge) : Type 0 where
  pub stamped : expected_marks c.status c.acceptance_origin ≡ some (marks_of c)
  pub itemised : breakdown_total c.cost_breakdown ≡ c.amount_minor

accept_elapsed-IsWellFormed :
    (now : DateTime) (c : Charge)
    → is_elapsed now c ≡ true
    → IsWellFormed c
    → IsWellFormed (accept_elapsed now c)
unfolding is_elapsed accept_elapsed transition
accept_elapsed-IsWellFormed now c h w = record {
  stamped = let s = w.stamped in ground arith;
  itemised = w.itemised;
}

pub next_charge-IsWellFormed :
    (now : DateTime) (cmd : ChargeCommand) (to : ChargeStatus) (o : Option AcceptanceOrigin)
    (c : Charge)
    → actor_for cmd.event ≡ some Actor.student
    → transition c.status cmd.event ≡ transition_accepted c.status cmd.event to o
    → IsWellFormed c
    → IsWellFormed (next_charge now cmd to o c)
unfolding next_charge transition actor_for
next_charge-IsWellFormed now cmd to o c a t w = record {
  stamped = let s = w.stamped in ground arith;
  itemised = let i = w.itemised in ground arith;
}

pub decided_charge-IsWellFormed :
    (now : DateTime) (event : ChargeEvent) (to : ChargeStatus) (o : Option AcceptanceOrigin)
    (c : Charge)
    → actor_for event ≡ some Actor.operator
    → transition c.status event ≡ transition_accepted c.status event to o
    → IsWellFormed c
    → IsWellFormed (decided_charge now to o c)
unfolding decided_charge transition actor_for
decided_charge-IsWellFormed now event to o c a t w = record {
  stamped = let s = w.stamped in ground arith;
  itemised = let i = w.itemised in ground arith;
}

pub reconcile_charges-IsWellFormed :
    (now : DateTime) (cs : List Charge)
    → All IsWellFormed cs
    → All IsWellFormed (reconcile_charges now cs).0
unfolding reconcile_charges
reconcile_charges-IsWellFormed now [] h = tt
reconcile_charges-IsWellFormed now (c ∷ cs) h = elim (Bool-cases (is_elapsed now c)) [
  | inl e ↦
      rw e (accept_elapsed-IsWellFormed now c e h.0, reconcile_charges-IsWellFormed now cs h.1)
  | inr e ↦ rw e (h.0, reconcile_charges-IsWellFormed now cs h.1)
]
