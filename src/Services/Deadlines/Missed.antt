-- ===== src/Services/Deadlines/Missed.antt =====
-- Which charges the deadline loop of app/main.py settles before it stops, and which it can miss.
use kxinspect_backend.Base.{
  ℕ, zero, suc, ◌+◌, ◌-◌, ◌≤◌, ◌<◌, ◌≡◌, ◌≢◌, ◌⊎◌, refl, sym, ap, ◌∙◌, true, false, none, some,
  List, [], ◌∷◌, All, arith, Bool-cases, Option-cases, inl, inr, any_of, ltb,
}
use kxinspect_backend.Core.Clock.{DateTime, parse_instant}
use kxinspect_backend.Domain.ChargeState.{outstanding, status_eq}
use kxinspect_backend.Domain.Deadline.{is_expired, is_expired_mono}
use kxinspect_backend.Db.Entities.{Charge, Entities}
use kxinspect_backend.Db.Models.{StoreSnapshot}
use kxinspect_backend.Db.Store.{
  Store, written, CommitRun, after_mutator, commit_lem, persist, append_events,
}
use kxinspect_backend.Services.ChargeService.Reads.{least, next_deadline_micros}
use kxinspect_backend.Services.ChargeService.Reads.Scheduler.{delays, becomes_elapsed, then_due}
use kxinspect_backend.Services.ChargeService.Reconcile.{
  is_elapsed, reconcile_charges, reconcile_deadlines, reconcile_mutator, any_event,
}
use kxinspect_backend.Services.ChargeService.Reconcile.Laws.{
  accept_elapsed-settled, reconcile_charges-none_elapsed, reconcile-no_events,
}
use kxinspect_backend.Services.ChargeService.Commands.Success.{append_events-entities}
use kxinspect_backend.Services.ChargeService.Evolution.{
  Evolves, Evolves-refl, Evolves-trans, reconcile_charges-Evolves,
}
use kxinspect_backend.Services.Deadlines.{
  WakeClock, wake, armed_delay, deadline_loop, outstanding_count,
}

count-reconcile-le :
    (now : DateTime) (cs : List Charge)
    → outstanding_count (reconcile_charges now cs).0 ≤ outstanding_count cs
unfolding outstanding_count reconcile_charges is_elapsed
count-reconcile-le now [] = omega arith
count-reconcile-le now (c ∷ cs) =
    ground (arith, count-reconcile-le now cs, accept_elapsed-settled now c)

count-reconcile-lt :
    (now : DateTime) (cs : List Charge)
    → any_of (is_elapsed now) cs ≡ true
    → outstanding_count (reconcile_charges now cs).0 < outstanding_count cs
unfolding outstanding_count reconcile_charges is_elapsed
count-reconcile-lt now [] h = absurd (cc)
count-reconcile-lt now (c ∷ cs) h =
    ground
      (arith, count-reconcile-le now cs, count-reconcile-lt now cs, accept_elapsed-settled now c)

-- After a wake the store holds the reconciled charges.
wake_lem :
    (at now : DateTime) (store : Store) (s : StoreSnapshot)
    → store.snapshot ≡ some s
    → (t : StoreSnapshot) × ((wake at now store).snapshot ≡ some t)
      × (t.entities.charges ≡ (reconcile_charges now s.entities.charges).0)
unfolding wake reconcile_mutator reconcile_deadlines persist
wake_lem at now store s live =
    let r = reconcile_deadlines now s in
    let bumped = record r.0 { store_revision = s.store_revision + 1 } in
    let woken : wake at now store
        ≡ (after_mutator at written store s (reconcile_mutator now s)).store =
      ap (λ (run : CommitRun ℕ). run.store)
        (commit_lem at written (reconcile_mutator now) store s live) in
    elim (Bool-cases (any_event (reconcile_charges now s.entities.charges).1)) [
      | inl e ↦ (
        (append_events at bumped r.1).0,
        ap (λ (x : Store). x.snapshot) woken ∙ rw e refl,
        ap (λ (x : Entities). x.charges) (append_events-entities at bumped r.1),
      )
      | inr e ↦ (
        s,
        ap (λ (x : Store). x.snapshot) woken ∙ rw e live,
        sym (reconcile-no_events now s.entities.charges e),
      )
    ]

any_of-becomes :
    (now d later : DateTime) (cs : List Charge)
    → now + d ≤ later
    → any_of (becomes_elapsed now d) cs ≡ true
    → any_of (is_elapsed later) cs ≡ true
unfolding is_elapsed
any_of-becomes now d later [] le h = absurd (cc)
any_of-becomes now d later (c ∷ cs) le h = ground (
  arith,
  any_of-becomes now d later cs le,
  is_expired_mono (now + d) later (parse_instant c.deadline_at) le,
)

-- Every charge that is outstanding has its deadline after the first instant and not after the second.
abbrev pub OnlyMissed : (reconciled_at armed_at : DateTime) → List Charge → Type 0
OnlyMissed reconciled_at armed_at = All (λ (c : Charge).
    (status_eq c.status outstanding ≡ false)
    ⊎ ((is_elapsed reconciled_at c ≡ false) × (is_elapsed armed_at c ≡ true)))

least-cons : (x : ℕ) (xs : List ℕ) → least (x ∷ xs) ≢ none
least-cons x xs h = elim (Option-cases (least xs)) [
  | inl e ↦ let k = rw e at h in cc
  | inr (y, e) ↦ let k = rw e at h in cc
]

OnlyMissed-idle :
    (last now : DateTime) (cs : List Charge)
    → All (λ c. is_elapsed last c ≡ false) cs
    → least (delays now cs) ≡ none
    → OnlyMissed last now cs
unfolding is_elapsed is_expired
OnlyMissed-idle last now [] h k = tt
OnlyMissed-idle last now (c ∷ cs) h k = elim (Bool-cases (status_eq c.status outstanding)) [
  | inr e ↦ (inl e, OnlyMissed-idle last now cs h.1 (rw e at k))
  | inl e ↦
      let chosen = rw e at k in
      elim (Bool-cases (ltb now (parse_instant c.deadline_at))) [
        | inl later ↦
            absurd
              (least-cons (parse_instant c.deadline_at - now) (delays now cs) (rw later at chosen))
        | inr passed ↦
            (inr (h.0, rw e (ground arith)), OnlyMissed-idle last now cs h.1 (rw passed at chosen))
      ]
]

module _ (clocks : ℕ → WakeClock) where
  loop_stops :
      (fuel : ℕ) (now : DateTime) (store : Store)
      → armed_delay now store.snapshot ≡ none
      → deadline_loop clocks (suc fuel) now store ≡ some (now, store)
  unfolding deadline_loop
  loop_stops fuel now store h = rw (h, deadline_loop) refl

  loop_wakes :
      (fuel : ℕ) (now d : DateTime) (store : Store)
      → armed_delay now store.snapshot ≡ some d
      → let clock = clocks fuel in
        let reconciled_at = now + d + clock.late in
        let committed_at = reconciled_at + clock.committing in
        deadline_loop clocks (suc fuel) now store
        ≡ deadline_loop clocks fuel
            (committed_at + clock.arming)
            (wake committed_at reconciled_at store)
  unfolding deadline_loop
  loop_wakes fuel now d store h = rw (h, deadline_loop) refl

  -- Take writes that succeed, a scheduler that calls back at the delay or later, and at most `window`
  -- between the clock of a reconciliation and that of the arming after it; no other request runs in
  -- between; and the loop starts at most `window` after an instant at which no charge had elapsed.
  -- With one more round than there are outstanding charges the loop has come to an arming that finds
  -- no deadline to wait for. The charges have evolved, and every one that is still outstanding has
  -- its deadline in the last `window` before that arming read the clock: after the instant of the
  -- last reconciliation, and not after that of the arming.
  pub deadline_loop-OnlyMissed :
      (window fuel : ℕ) (last now : DateTime) (store : Store) (s : StoreSnapshot)
      → ((n : ℕ) → (clocks n).committing + (clocks n).arming ≤ window)
      → now ≤ last + window
      → store.snapshot ≡ some s
      → All (λ c. is_elapsed last c ≡ false) s.entities.charges
      → outstanding_count s.entities.charges < fuel
      → (reconciled_at : DateTime) × (armed_at : DateTime) × (after : Store) × (t : StoreSnapshot)
        × (deadline_loop clocks fuel now store ≡ some (armed_at, after))
        × (after.snapshot ≡ some t)
        × (armed_at ≤ reconciled_at + window)
        × OnlyMissed reconciled_at armed_at t.entities.charges
        × Evolves s.entities.charges t.entities.charges
  unfolding next_deadline_micros
  deadline_loop-OnlyMissed window zero last now store s narrow near live idle enough =
      absurd (omega arith)
  deadline_loop-OnlyMissed window (suc fuel) last now store s narrow near live idle enough =
      elim (Option-cases (next_deadline_micros now s)) [
        | inl e ↦ (
          last,
          now,
          store,
          s,
          loop_stops fuel now store (ap (armed_delay now) live ∙ e),
          live,
          near,
          OnlyMissed-idle last now s.entities.charges idle e,
          Evolves-refl s.entities.charges,
        )
        | inr (d, e) ↦
            let clock = clocks fuel in
            let at : DateTime = now + d + clock.late in
            let committed_at : DateTime = at + clock.committing in
            let (t, live', charges) = wake_lem committed_at at store s live in
            let due =
              any_of-becomes now d at s.entities.charges (omega arith)
                (then_due now d s.entities.charges e) in
            let fewer = count-reconcile-lt at s.entities.charges due in
            let bound = narrow fuel in
            let (reconciled_at, armed_at, after, u, ends, alive, inside, missed, grown) =
              deadline_loop-OnlyMissed window fuel at (committed_at + clock.arming)
                (wake committed_at at store) t narrow (omega arith) live'
                (rw charges (reconcile_charges-none_elapsed at s.entities.charges))
                (rw charges (omega arith)) in
            (
              reconciled_at,
              armed_at,
              after,
              u,
              loop_wakes fuel now d store (ap (armed_delay now) live ∙ e) ∙ ends,
              alive,
              inside,
              missed,
              Evolves-trans (rw charges (reconcile_charges-Evolves at s.entities.charges)) grown,
            )
      ]
