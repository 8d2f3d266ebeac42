-- ===== src/Api/Commands/Contest/References.antt =====
-- The ids that the charges of a state refer to, under a reconciliation and under a contest of
-- app/services/charge_service.py.
use kxinspect_backend.Base.{
  ℕ, zero, suc, ◌≡◌, refl, Option, some, List, [], ◌∷◌, get_elem?, set, arith, Bool-cases, ◌⊎◌, inl,
  inr,
}
use kxinspect_backend.Core.Clock.{DateTime}
use kxinspect_backend.Domain.ChargeState.{ChargeStatus, contest, AcceptanceOrigin}
use kxinspect_backend.Db.Text.{Text}
use kxinspect_backend.Db.Entities.{Charge}
use kxinspect_backend.Db.Models.{StoreSnapshot}
use kxinspect_backend.Db.Store.{DraftEvent}
use kxinspect_backend.Db.Uploads.{photo_ids, attachment_ids, charge_ids, referenced_attachment_ids}
use kxinspect_backend.Db.Uploads.Cleanup.{In}
use kxinspect_backend.Db.Uploads.Found.{In-append, In-left, In-right}
use kxinspect_backend.Services.ChargeService.Ledger.{record_success}
use kxinspect_backend.Services.ChargeService.Reconcile.{
  is_elapsed, accept_elapsed, reconcile_charges, reconcile_deadlines,
}
use kxinspect_backend.Services.ChargeService.Commands.{ChargeCommand, next_charge, success_snapshot}

charge_ids-reconcile :
    (now : DateTime) (cs : List Charge) → charge_ids (reconcile_charges now cs).0 ≡ charge_ids cs
unfolding reconcile_charges accept_elapsed
charge_ids-reconcile now [] = refl
charge_ids-reconcile now (c ∷ cs) = elim (Bool-cases (is_elapsed now c)) [
  | inl e ↦ rw (e, charge_ids-reconcile now cs)
  | inr e ↦ rw (e, charge_ids-reconcile now cs)
]

-- A reconciliation does not change what the state refers to.
pub referenced-reconcile :
    (now : DateTime) (s : StoreSnapshot)
    → referenced_attachment_ids (reconcile_deadlines now s).0.entities
      ≡ referenced_attachment_ids s.entities
unfolding reconcile_deadlines referenced_attachment_ids
referenced-reconcile now s = rw (charge_ids-reconcile now s.entities.charges)

-- An id of the charges after a charge got other attachments is one of theirs, or was there.
charge_ids-set :
    (cs : List Charge) (i : ℕ) (c d : Charge) (x : Text)
    → get_elem? cs i ≡ some c
    → d.photos ≡ c.photos
    → In x (charge_ids (set cs i d))
    → In x (charge_ids cs) ⊎ In x (attachment_ids d.contest_attachments)
charge_ids-set [] i c d x found same h = inl h
charge_ids-set (e ∷ cs) zero c d x found same h =
    let e_is_c : e ≡ c = ground arith in
    elim (In-append x (photo_ids d.photos) _ h) [
      | inl photo ↦ let p = rw (same, ← e_is_c) at photo in inl (In-left x (photo_ids e.photos) _ p)
      | inr rest ↦ elim (In-append x (attachment_ids d.contest_attachments) (charge_ids cs) rest) [
        | inl new ↦ inr new
        | inr old ↦ inl (
            In-right x (photo_ids e.photos) _
              (In-right x (attachment_ids e.contest_attachments) (charge_ids cs) old))
      ]
    ]
charge_ids-set (e ∷ cs) (suc i) c d x found same h = elim (In-append x (photo_ids e.photos) _ h) [
  | inl photo ↦ inl (In-left x (photo_ids e.photos) _ photo)
  | inr rest ↦
      elim (In-append x (attachment_ids e.contest_attachments) (charge_ids (set cs i d)) rest) [
        | inl mine ↦ inl (
            In-right x (photo_ids e.photos) _
              (In-left x (attachment_ids e.contest_attachments) (charge_ids cs) mine))
        | inr later ↦ elim (charge_ids-set cs i c d x found same later) [
          | inl old ↦ inl (
              In-right x (photo_ids e.photos) _
                (In-right x (attachment_ids e.contest_attachments) (charge_ids cs) old))
          | inr new ↦ inr new
        ]
      ]
]

-- After a contest the state refers to what it referred to before, and to the new attachments.
pub referenced-contest :
    (now recorded_at : DateTime) (cmd : ChargeCommand) (s : StoreSnapshot)
    (events : List DraftEvent) (i : ℕ) (c : Charge) (to_status : ChargeStatus)
    (origin : Option AcceptanceOrigin) (x : Text)
    → cmd.event ≡ contest
    → get_elem? s.entities.charges i ≡ some c
    → In x (
        referenced_attachment_ids
          (success_snapshot recorded_at cmd s events i
            (next_charge now cmd to_status origin c)).entities)
    → In x (referenced_attachment_ids s.entities) ⊎ In x (attachment_ids cmd.attachments)
unfolding referenced_attachment_ids record_success next_charge
referenced-contest now recorded_at cmd s events i c to_status origin x is_contest found h =
    let next = next_charge now cmd to_status origin c in
    let photos : next.photos ≡ c.photos = rw is_contest in
    let attached : next.contest_attachments ≡ cmd.attachments = rw is_contest in
    elim (In-append x (charge_ids (set s.entities.charges i next)) _ h) [
      | inr other ↦ inl (In-right x (charge_ids s.entities.charges) _ other)
      | inl mine ↦ elim (charge_ids-set s.entities.charges i c next x found photos mine) [
        | inl old ↦ inl (In-left x (charge_ids s.entities.charges) _ old)
        | inr new ↦ inr (rw attached at new)
      ]
    ]
