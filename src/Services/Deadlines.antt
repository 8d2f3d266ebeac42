-- ===== src/Services/Deadlines.antt =====
-- `_schedule_next_deadline` of app/main.py: the loop that wakes at the nearest deadline, reconciles
-- and arms itself again. Every reading of the clock is one of its own: at `reconcile_now`, at the
-- events of the commit, and at `next_deadline_seconds`. Other requests in between are not modelled,
-- and every write succeeds.
pub mod Missed
use kxinspect_backend.Base.{
  ℕ, zero, suc, ◌+◌, ◌-◌, ◌≤◌, ◌<◌, ◌≡◌, ◌≢◌, ◌⊎◌, refl, sym, ap, ◌∙◌, true, false, Option, none,
  some, List, [], ◌∷◌, All, arith, Bool-cases, Option-cases, inl, inr, any_of, if◌then◌else◌, ltb,
}
use kxinspect_backend.Core.Clock.{DateTime, parse_instant}
use kxinspect_backend.Domain.ChargeState.{outstanding, status_eq}
use kxinspect_backend.Domain.Deadline.{is_expired, is_expired_mono}
use kxinspect_backend.Db.Entities.{Charge, Entities}
use kxinspect_backend.Db.Models.{StoreSnapshot}
use kxinspect_backend.Db.Store.{
  Store, written, CommitRun, after_mutator, commit, commit_lem, persist, append_events,
}
use kxinspect_backend.Services.ChargeService.Reads.{least, next_deadline_micros}
use kxinspect_backend.Services.ChargeService.Reads.Scheduler.{delays, becomes_elapsed, then_due}
use kxinspect_backend.Services.ChargeService.Reconcile.{
  is_elapsed, reconcile_charges, reconcile_deadlines, reconcile_mutator, any_event,
}
use kxinspect_backend.Services.ChargeService.Reconcile.Laws.{
  accept_elapsed-settled, reconcile_charges-none_elapsed, reconcile-no_events,
}
use kxinspect_backend.Services.ChargeService.Commands.Success.{append_events-entities}
use kxinspect_backend.Services.ChargeService.Evolution.{
  Evolves, Evolves-refl, Evolves-trans, reconcile_charges-Evolves,
}

-- What passes around one wake: between the delay and the reading of the clock in `reconcile_now`,
-- from there to that of the commit, and from there to that of `next_deadline_seconds`.
pub record WakeClock : Type 0 where
  pub late : ℕ
  pub committing : ℕ
  pub arming : ℕ

-- `wake`, before it arms the scheduler again, with the clock of the commit.
unfoldable pub wake : (committed_at now : DateTime) → Store → Store
wake committed_at now store = (commit committed_at written (reconcile_mutator now) store).store

-- `next_deadline_seconds` of the open store.
abbrev pub armed_delay : DateTime → Option StoreSnapshot → Option ℕ
armed_delay now none = none
armed_delay now (some s) = next_deadline_micros now s

-- The loop from a call on that reads the clock at `now`: the instant and the store at which it arms
-- no more, or `none` where the fuel ran out before. The wakes have the clocks of the fuel left.
unfoldable pub deadline_loop : (ℕ → WakeClock) → ℕ → DateTime → Store → Option (DateTime × Store)
deadline_loop clocks zero now store = none
deadline_loop clocks (suc fuel) now store = elim (armed_delay now store.snapshot) [
  | none ↦ some (now, store)
  | some delay ↦
      let clock = clocks fuel in
      let reconciled_at = now + delay + clock.late in
      let committed_at = reconciled_at + clock.committing in
      deadline_loop clocks fuel (committed_at + clock.arming)
        (wake committed_at reconciled_at store)
]

-- How many charges are outstanding.
unfoldable pub outstanding_count : List Charge → ℕ
outstanding_count [] = 0
outstanding_count (c ∷ cs) =
    let rest = outstanding_count cs in if status_eq c.status outstanding then suc rest else rest
