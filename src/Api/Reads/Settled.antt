-- ===== src/Api/Reads/Settled.antt =====
-- The list of charges of app/api/v1/endpoints/reads.py, and the reconciliation before it.
use kxinspect_backend.Base.{
  ◌≡◌, refl, sym, ap, ◌∙◌, Bool, false, String, Option, none, some, List, [], ◌∷◌, ◌+◌, ℕ, All,
  filter_by, Bool-cases, Option-cases, inl, inr, str_eq,
}
use kxinspect_backend.Core.Clock.{DateTime}
use kxinspect_backend.Core.Errors.{Result, ok, raise, bind-ok}
use kxinspect_backend.Domain.ChargeState.{ChargeStatus}
use kxinspect_backend.Db.Text.{Text}
use kxinspect_backend.Db.Entities.{Charge}
use kxinspect_backend.Db.Models.{StoreSnapshot}
use kxinspect_backend.Db.Store.{
  Store, WriteOutcome, written, failed_before_replace, failed_after_replace, persist, append_events,
  CommitRun, CommitResult, commit, commit_lem, after_mutator, run_mutator,
}
use kxinspect_backend.Services.ChargeService.Commands.Success.{append_events-entities}
use kxinspect_backend.Services.ChargeService.Reads.{charges, one_of}
use kxinspect_backend.Services.ChargeService.Reconcile.{
  is_elapsed, reconcile_charges, reconcile_deadlines, reconcile_mutator, any_event,
}
use kxinspect_backend.Services.ChargeService.Reconcile.Laws.{
  reconcile_charges-none_elapsed, reconcile-no_events,
}
use kxinspect_backend.Services.ChargeService.Requests.{Moment}
use kxinspect_backend.Api.Deps.{Envelope}
use kxinspect_backend.Api.Reads.{
  ReadRun, settling, after_settling, live_read, settled_read, statuses_of, checked_read, respond,
  list_charges,
}

-- No charge of the list is outstanding past its deadline.
abbrev pub AllTimely : DateTime → List Charge → Type 0
AllTimely now = All (λ c. is_elapsed now c ≡ false)

filter-AllTimely :
    (now : DateTime) (test : Charge → Bool) (cs : List Charge)
    → AllTimely now cs
    → AllTimely now (filter_by test cs)
filter-AllTimely now test [] h = tt
filter-AllTimely now test (c ∷ cs) h = elim (Bool-cases (test c)) [
  | inl e ↦ rw e (h.0, filter-AllTimely now test cs h.1)
  | inr e ↦ rw e (filter-AllTimely now test cs h.1)
]

charges-AllTimely :
    (now : DateTime) (s : StoreSnapshot) (booking_id : Option String) (statuses : List ChargeStatus)
    → AllTimely now s.entities.charges
    → AllTimely now (charges s booking_id statuses)
unfolding charges
charges-AllTimely now s none [] h = h
charges-AllTimely now s none (t ∷ ts) h = filter-AllTimely now (one_of (t ∷ ts)) _ h
charges-AllTimely now s (some b) [] h =
    filter-AllTimely now (λ (c : Charge). str_eq c.booking_id b) _ h
charges-AllTimely now s (some b) (t ∷ ts) h =
    filter-AllTimely now (one_of (t ∷ ts)) _
      (filter-AllTimely now (λ (c : Charge). str_eq c.booking_id b) _ h)

untouched :
    (now : DateTime) (s t : StoreSnapshot)
    → any_event (reconcile_charges now s.entities.charges).1 ≡ false
    → s ≡ t
    → AllTimely now t.entities.charges
untouched now s t e same =
    rw (← same, ← reconcile-no_events now s.entities.charges e)
      (reconcile_charges-none_elapsed now s.entities.charges)

-- A reconciliation that did not raise has left a live snapshot without elapsed charges.
after_settled :
    (m : Moment) (write : WriteOutcome) (store : Store) (s : StoreSnapshot)
    (answer : CommitResult ℕ) (t : StoreSnapshot)
    → store.snapshot ≡ some s
    → (after_mutator m.commit_at write store s (reconcile_mutator m.now s)).result ≡ ok answer
    → (after_mutator m.commit_at write store s (reconcile_mutator m.now s)).store.snapshot ≡ some t
    → AllTimely m.now t.entities.charges
unfolding reconcile_mutator reconcile_deadlines persist
after_settled m failed_before_replace store s answer t live h k =
    elim (Bool-cases (any_event (reconcile_charges m.now s.entities.charges).1)) [
      | inl e ↦ let h' = rw e at h in absurd (cc)
      | inr e ↦ let k' = rw e at k in untouched m.now s t e (cc)
    ]
after_settled m failed_after_replace store s answer t live h k =
    elim (Bool-cases (any_event (reconcile_charges m.now s.entities.charges).1)) [
      | inl e ↦ let h' = rw e at h in absurd (cc)
      | inr e ↦ let k' = rw e at k in untouched m.now s t e (cc)
    ]
after_settled m written store s answer t live h k =
    elim (Bool-cases (any_event (reconcile_charges m.now s.entities.charges).1)) [
      | inl e ↦
          let settled = reconcile_deadlines m.now s in
          let bumped = record settled.0 { store_revision = s.store_revision + 1 } in
          let k' = rw e at k in
          let same : (append_events m.commit_at bumped settled.1).0 ≡ t = cc in
          rw (← same, append_events-entities m.commit_at bumped settled.1)
            (reconcile_charges-none_elapsed m.now s.entities.charges)
      | inr e ↦ let k' = rw e at k in untouched m.now s t e (cc)
    ]

settling_lem :
    (m : Moment) (store : Store) (answer : CommitResult ℕ) (t : StoreSnapshot)
    → (settling m store).result ≡ ok answer
    → (settling m store).store.snapshot ≡ some t
    → AllTimely m.now t.entities.charges
unfolding commit
settling_lem m store answer t h k = elim (Option-cases store.snapshot) [
  | inl e ↦
      let gone =
        ap
          (λ current.
            (run_mutator m.commit_at m.disk (reconcile_mutator m.now) store current).result)
          e in
      absurd (cc)
  | inr (s, live) ↦
      let c = commit_lem m.commit_at m.disk (reconcile_mutator m.now) store s live in
      after_settled m m.disk store s answer t live (ap (λ (r : CommitRun ℕ). r.result) (sym c) ∙ h)
        (ap (λ (r : CommitRun ℕ). r.store.snapshot) (sym c) ∙ k)
]

settled_parts :
    {A : Type 0} (read : StoreSnapshot → Result A) (store : Store) (r : Result (CommitResult ℕ))
    (x : A)
    → after_settling read store r ≡ ok x
    → (answer : CommitResult ℕ) × (t : StoreSnapshot) × (r ≡ ok answer)
      × (store.snapshot ≡ some t)
      × (read t ≡ ok x)
settled_parts read store (raise f) x h = absurd (cc)
settled_parts {A} read store (ok answer) x h = live store.snapshot refl h
  where
    live :
        (current : Option StoreSnapshot)
        → store.snapshot ≡ current
        → live_read read current ≡ ok x
        → (a : CommitResult ℕ) × (t : StoreSnapshot) × (ok answer ≡ ok a)
          × (store.snapshot ≡ some t)
          × (read t ≡ ok x)
    live none q k = absurd (cc)
    live (some t) q k = (answer, t, refl, q, k)

-- Take a list of charges that is answered. None of them is outstanding past its deadline at the
-- instant of the request, whatever the filter, the state before and what the disk does; they are the
-- charges of the live state that the filter asks for, and that state has none past its deadline.
pub list_charges-AllTimely :
    (request_id : String) (at : DateTime) (m : Moment) (store : Store) (booking_id : Option String)
    (status : List Text) (e : Envelope (List Charge))
    → (list_charges request_id at m store booking_id status).result ≡ ok e
    → (statuses : List ChargeStatus) × (t : StoreSnapshot) × (statuses_of status ≡ ok statuses)
      × ((list_charges request_id at m store booking_id status).store.snapshot ≡ some t)
      × (e.content ≡ charges t booking_id statuses)
      × AllTimely m.now t.entities.charges
      × AllTimely m.now e.content
unfolding list_charges
list_charges-AllTimely request_id at m store booking_id status e h =
    answered (statuses_of status) refl h
  where
    run : List ChargeStatus → ReadRun (List Charge)
    run statuses = settled_read m store (λ s. ok (charges s booking_id statuses))

    answered :
        (parsed : Result (List ChargeStatus))
        → statuses_of status ≡ parsed
        → (respond request_id at (checked_read store run parsed)).result ≡ ok e
        → (statuses : List ChargeStatus) × (t : StoreSnapshot) × (statuses_of status ≡ ok statuses)
          × ((checked_read store run parsed).store.snapshot ≡ some t)
          × (e.content ≡ charges t booking_id statuses)
          × AllTimely m.now t.entities.charges
          × AllTimely m.now e.content
    answered (raise f) q k = absurd (cc)
    answered (ok statuses) q k =
        let (content, given, built) = bind-ok (run statuses).result _ e k in
        let (answer, t, settled, live, shown) =
          settled_parts (λ (s : StoreSnapshot). ok (charges s booking_id statuses))
            (settling m store).store (settling m store).result content given in
        let timely = settling_lem m store answer t settled live in
        let same : e.content ≡ charges t booking_id statuses = cc in
        (
          statuses,
          t,
          q,
          live,
          same,
          timely,
          rw same (charges-AllTimely m.now t booking_id statuses timely),
        )
