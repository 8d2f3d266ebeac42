-- ===== src/Tests/Reads.antt =====
-- A witness on the reads: a list of charges a day after the charge of the store was raised.
use kxinspect_backend.Base.{◌≡◌, refl, some, List, [], ◌∷◌, map}
use kxinspect_backend.Core.Clock.{format_instant, parse_instant}
use kxinspect_backend.Core.Errors.{Result, ok, raise}
use kxinspect_backend.Domain.ChargeState.{ChargeStatus, accepted, transition}
use kxinspect_backend.Domain.Deadline.{is_expired}
use kxinspect_backend.Db.Text.{Text, codes}
use kxinspect_backend.Db.Entities.{Charge}
use kxinspect_backend.Db.Models.{StoreSnapshot}
use kxinspect_backend.Db.Store.{written, commit, persist, append_events, keep_last, seed_snapshot}
use kxinspect_backend.Services.ChargeService.Operator.{raised_charge}
use kxinspect_backend.Services.ChargeService.Reads.{charges}
use kxinspect_backend.Services.ChargeService.Reconcile.{
  is_elapsed, accept_elapsed, reconcile_charges, reconcile_deadlines, reconcile_mutator,
}
use kxinspect_backend.Services.ChargeService.Requests.{Moment}
use kxinspect_backend.Api.Deps.{Envelope, envelope, meta_for}
use kxinspect_backend.Api.Reads.{ReadRun, list_charges, statuses_of}
use kxinspect_backend.Api.Reads.Settled.{AllTimely, list_charges-AllTimely}
use kxinspect_backend.Tests.Data.{store, one_day}

abbrev moment : Moment
moment = record { commit_at = one_day; now = one_day; recorded_at = one_day; disk = written }

abbrev filter : List Text
filter = codes "accepted" ∷ []

abbrev listed : ReadRun (Envelope (List Charge))
listed = list_charges "request-1" one_day moment store (some "BKG-1") filter

abbrev answer_of : Result (Envelope (List Charge)) → Envelope (List Charge)
answer_of (ok e) = e
answer_of (raise f) = envelope "" 0 store []

abbrev answer : Envelope (List Charge)
answer = answer_of listed.result

answered : listed.result ≡ ok answer
unfolding list_charges statuses_of charges commit reconcile_mutator reconcile_deadlines
    reconcile_charges is_elapsed is_expired parse_instant format_instant transition persist
    seed_snapshot raised_charge append_events keep_last meta_for
answered = refl

-- The charge has been accepted by its deadline.
one_accepted : map (λ (c : Charge). c.status) answer.content ≡ accepted ∷ []
unfolding list_charges statuses_of charges commit reconcile_mutator reconcile_deadlines
    reconcile_charges is_elapsed is_expired parse_instant format_instant transition persist
    seed_snapshot raised_charge append_events keep_last meta_for accept_elapsed
one_accepted = refl

list_charges-AllTimely_example :
    (statuses : List ChargeStatus) × (t : StoreSnapshot) × (statuses_of filter ≡ ok statuses)
    × (listed.store.snapshot ≡ some t)
    × (answer.content ≡ charges t (some "BKG-1") statuses)
    × AllTimely one_day t.entities.charges
    × AllTimely one_day answer.content
list_charges-AllTimely_example =
    list_charges-AllTimely "request-1" one_day moment store (some "BKG-1") filter answer answered
