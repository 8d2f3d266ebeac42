-- ===== src/Services/ChargeService/Requests/Run.antt =====
-- What every sequence of requests keeps.
use mathlib.Core.List.{append-nil, append_assoc}
use kxinspect_backend.Base.{
  ◌+◌, ◌≤◌, ◌≡◌, refl, some, List, [], ◌∷◌, ◌++◌, All, arith, Bool-cases, inl, inr,
}
use kxinspect_backend.Core.Clock.{DateTime}
use kxinspect_backend.Core.Errors.{Result, ok, raise}
use kxinspect_backend.Domain.ChargeState.Lifecycle.{lifecycle_terminates, rank}
use kxinspect_backend.Db.Entities.{Charge}
use kxinspect_backend.Db.Models.{StoredEvent, StoreSnapshot}
use kxinspect_backend.Db.Store.{
  MutationOutcome, Mutator, Store, WriteOutcome, written, failed_before_replace,
  failed_after_replace, commit, commit_lem, persist, append_events, after_persist, after_mutator,
}
use kxinspect_backend.Db.Store.Ring.{RefinesLog}
use kxinspect_backend.Db.Store.Publish.{KeepsStream, commit-RefinesLog}
use kxinspect_backend.Services.ChargeService.Commands.Success.{append_events-entities}
use kxinspect_backend.Services.ChargeService.Evolution.{
  IsTraced, Evolves, Evolves-refl, Evolves-trans, Evolves-IsTraced,
}
use kxinspect_backend.Services.ChargeService.Evolution.Stamped.{IsWellFormed}
use kxinspect_backend.Services.ChargeService.Keeps.{
  Kept, Keeps, charge_mutator-Keeps, reconcile_mutator-Keeps,
}
use kxinspect_backend.Services.ChargeService.Keeps.Plain.{
  task_mutator-Keeps, read_mutator-Keeps, raise_mutator-Keeps, resolve_mutator-Keeps,
}
use kxinspect_backend.Services.ChargeService.Requests.{
  Request, reconcile_now, apply_charge_command, create_task, mark_notification_read,
  dev_raise_charge, dev_resolve_charge, Moment, IsRouted, Served, served, serve, serve_all,
}

-- What a call does to the live snapshot.
pub record Advances (s : StoreSnapshot) (log : List StoredEvent) (run : Served) : Type 0 where
  pub new : StoreSnapshot
  pub live : run.0.snapshot ≡ some new
  pub evolves : Evolves s.entities.charges new.entities.charges
  pub well_formed : All IsWellFormed s.entities.charges → All IsWellFormed new.entities.charges
  pub refines : RefinesLog s log → RefinesLog new (log ++ run.1)

-- The charges of the live snapshot, against those of an earlier one.
record ChargesKept (s : StoreSnapshot) (store : Store) : Type 0 where
  new : StoreSnapshot
  live : store.snapshot ≡ some new
  evolves : Evolves s.entities.charges new.entities.charges
  well_formed : All IsWellFormed s.entities.charges → All IsWellFormed new.entities.charges

same_charges : (s : StoreSnapshot) (store : Store) → store.snapshot ≡ some s → ChargesKept s store
same_charges s store live = record {
  new = s;
  live = live;
  evolves = Evolves-refl _;
  well_formed = λ h. h;
}

module _ {T : Type 0} (at : DateTime) (store : Store) (s : StoreSnapshot)
    (live : store.snapshot ≡ some s) where
  written-ChargesKept :
      (disk : WriteOutcome) (outcome : MutationOutcome T) (mutated : StoreSnapshot)
      → Kept s mutated
      → let bumped = record mutated { store_revision = s.store_revision + 1 } in
        let appended = append_events at bumped outcome.events in
        ChargesKept s
          (after_persist store outcome appended.0 appended.1
            (persist disk appended.0 store.disk)).store
  unfolding persist
  written-ChargesKept written outcome mutated k =
      let bumped = record mutated { store_revision = s.store_revision + 1 } in
      let e = append_events-entities at bumped outcome.events in
      record {
        new = _;
        live = refl;
        evolves = rw e k.evolves;
        well_formed = λ h. rw e (k.well_formed h);
      }
  written-ChargesKept failed_before_replace outcome mutated k = same_charges s _ live
  written-ChargesKept failed_after_replace outcome mutated k = same_charges s _ live

  mutated-ChargesKept :
      (disk : WriteOutcome) (r : Result (MutationOutcome T × StoreSnapshot))
      → ((o : MutationOutcome T) (s' : StoreSnapshot) → r ≡ ok (o, s') → Kept s s')
      → ChargesKept s (after_mutator at disk store s r).store
  mutated-ChargesKept disk (raise e) keeps = same_charges s store live
  mutated-ChargesKept disk (ok (outcome, mutated)) keeps = elim (Bool-cases outcome.persist) [
    | inl p ↦ rw p (written-ChargesKept disk outcome mutated (keeps outcome mutated refl))
    | inr p ↦ rw p (same_charges s store live)
  ]

  commit-Advances :
      (disk : WriteOutcome) (m : Mutator T) (log : List StoredEvent)
      → Keeps m
      → Advances s log (served (commit at disk m store))
  commit-Advances disk m log keeps =
      let k : ChargesKept s (commit at disk m store).store =
        rw (commit_lem at disk m store s live) (mutated-ChargesKept disk (m s) (keeps.at s)) in
      let stream : KeepsStream m = record { at = λ a o b e. (keeps.at a o b e).stream } in
      record {
        new = k.new;
        live = k.live;
        evolves = k.evolves;
        well_formed = k.well_formed;
        refines = λ h.
            let (new, e, r) = commit-RefinesLog at disk m store s log live stream h in
            let same : new ≡ k.new = cc in rw same at r;
      }

serve-Advances :
    (m : Moment) (request : Request) (store : Store) (s : StoreSnapshot) (log : List StoredEvent)
    → store.snapshot ≡ some s
    → IsRouted request
    → Advances s log (serve m request store)
unfolding serve
serve-Advances m reconcile_now store s log live h =
    commit-Advances m.commit_at store s live m.disk _ log (reconcile_mutator-Keeps m.now)
serve-Advances m (apply_charge_command cmd) store s log live h =
    commit-Advances m.commit_at store s live m.disk _ log
      (charge_mutator-Keeps m.now m.recorded_at cmd h)
serve-Advances m (create_task task epoch context) store s log live h =
    commit-Advances m.commit_at store s live m.disk _ log
      (task_mutator-Keeps m.recorded_at task epoch context)
serve-Advances m (mark_notification_read id epoch) store s log live h =
    commit-Advances m.commit_at store s live m.disk _ log (read_mutator-Keeps id epoch)
serve-Advances m (dev_raise_charge id grace charge) store s log live h =
    commit-Advances m.commit_at store s live m.disk _ log
      (raise_mutator-Keeps m.now id grace charge h)
serve-Advances m (dev_resolve_charge id charge_id event) store s log live h =
    commit-Advances m.commit_at store s live m.disk _ log
      (resolve_mutator-Keeps m.now id charge_id event h)

serve_all-Advances :
    (requests : List (Moment × Request)) (store : Store) (s : StoreSnapshot)
    (log : List StoredEvent)
    → store.snapshot ≡ some s
    → All (λ r. IsRouted r.1) requests
    → Advances s log (serve_all requests store)
unfolding serve_all
serve_all-Advances [] store s log live h = record {
  new = s;
  live = live;
  evolves = Evolves-refl _;
  well_formed = λ w. w;
  refines = λ r. rw append-nil r;
}
serve_all-Advances ((m, request) ∷ rest) store s log live h =
    let first = serve-Advances m request store s log live h.0 in
    let others =
      serve_all-Advances rest (serve m request store).0 first.new (log ++ (serve m request store).1)
        first.live h.1 in
    record {
      new = others.new;
      live = others.live;
      evolves = Evolves-trans first.evolves others.evolves;
      well_formed = λ w. others.well_formed (first.well_formed w);
      refines = λ r.
          rw (append_assoc log _ (serve_all rest (serve m request store).0).1) at
            (others.refines (first.refines r));
    }

traced_bound :
    (cs : List Charge) → All IsTraced cs → All (λ (c : Charge). c.version + rank c.status ≤ 4) cs
traced_bound [] h = tt
traced_bound (c ∷ cs) h = (bound c h.0, traced_bound cs h.1)
  where
    bound : (c : Charge) → IsTraced c → c.version + rank c.status ≤ 4
    bound c t = let p = lifecycle_terminates t.trace in let q = t.counted in omega arith

-- Between two resets, any sequence of the six committing calls of the charge service, as the routes
-- make them, and whatever the clock and the disk do, leaves a live snapshot in which every charge of
-- the first has moved along legal transitions with one version for each, in its place and with its
-- facts unchanged, and every other charge is one that was raised, appended, whose version counts its
-- transitions since.
pub serve_all-Evolves :
    (requests : List (Moment × Request)) (store : Store) (s : StoreSnapshot)
    → store.snapshot ≡ some s
    → All (λ r. IsRouted r.1) requests
    → (new : StoreSnapshot) × ((serve_all requests store).0.snapshot ≡ some new)
      × Evolves s.entities.charges new.entities.charges
serve_all-Evolves requests store s live h =
    let a = serve_all-Advances requests store s [] live h in (a.new, a.live, a.evolves)

-- Between two resets, any sequence of the six committing calls of the charge service, as the routes
-- make them, keeps every charge well formed: the instants and the acceptance origin that it carries
-- are those of its status, and its breakdown adds up to its amount.
pub serve_all-IsWellFormed :
    (requests : List (Moment × Request)) (store : Store) (s : StoreSnapshot)
    → store.snapshot ≡ some s
    → All (λ r. IsRouted r.1) requests
    → All IsWellFormed s.entities.charges
    → (new : StoreSnapshot) × ((serve_all requests store).0.snapshot ≡ some new)
      × All IsWellFormed new.entities.charges
serve_all-IsWellFormed requests store s live h w =
    let a = serve_all-Advances requests store s [] live h in (a.new, a.live, a.well_formed w)

-- Between two resets: if the live snapshot refines a log of events, then after any sequence of the
-- six committing calls of the charge service, as the routes make them, it refines that log followed
-- by exactly the events that the calls have published, in order: it retains the last hundred of
-- them, with strictly increasing cursors, and names the last one that it has evicted.
pub serve_all-RefinesLog :
    (requests : List (Moment × Request)) (store : Store) (s : StoreSnapshot)
    (log : List StoredEvent)
    → store.snapshot ≡ some s
    → All (λ r. IsRouted r.1) requests
    → RefinesLog s log
    → (new : StoreSnapshot) × ((serve_all requests store).0.snapshot ≡ some new)
      × RefinesLog new (log ++ (serve_all requests store).1)
serve_all-RefinesLog requests store s log live h r =
    let a = serve_all-Advances requests store s log live h in (a.new, a.live, a.refines r)

-- Between two resets: if the version of every charge counts its transitions at first, then after any
-- sequence of the six committing calls of the charge service, as the routes make them, the version of
-- every charge and the rank of its status, which bounds the transitions that it can still make, are
-- together at most 4.
pub serve_all-version_bound :
    (requests : List (Moment × Request)) (store : Store) (s : StoreSnapshot)
    → store.snapshot ≡ some s
    → All (λ r. IsRouted r.1) requests
    → All IsTraced s.entities.charges
    → (new : StoreSnapshot) × ((serve_all requests store).0.snapshot ≡ some new)
      × All (λ (c : Charge). c.version + rank c.status ≤ 4) new.entities.charges
serve_all-version_bound requests store s live h t =
    let a = serve_all-Advances requests store s [] live h in
    (a.new, a.live, traced_bound _ (Evolves-IsTraced a.evolves t))
