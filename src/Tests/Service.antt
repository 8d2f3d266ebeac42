-- ===== src/Tests/Service.antt =====
-- The charge service on the small store.
use kxinspect_backend.Base.{
  inl, String, ℕ, ◌+◌, ◌<◌, ◌≤◌, ◌≡◌, ◌≢◌, refl, true, false, some, List, [], ◌∷◌, ◌++◌, map,
  filter_by, All, any_of, eq_iff, arith, if◌then◌else◌,
}
use kxinspect_backend.Core.Clock.{parse_instant, format_instant}
use kxinspect_backend.Core.Errors.{api, version_conflict, Fault, ok}
use kxinspect_backend.Domain.ChargeState.{operator_dismiss, transition, actor_for}
use kxinspect_backend.Domain.ChargeState.Lifecycle.{here, rank}
use kxinspect_backend.Domain.CostBreakdown.{breakdown_total, default_cost_breakdown}
use kxinspect_backend.Domain.Deadline.{is_expired}
use kxinspect_backend.Db.Cursor.{IsEpoch}
use kxinspect_backend.Db.Entities.{Charge}
use kxinspect_backend.Db.Models.{StoreSnapshot}
use kxinspect_backend.Db.Store.{
  written, failed_before_replace, failed_after_replace, CommitResult, CommitRun, commit,
  append_events, keep_last, persist, reset, seed_snapshot, find_entity, ledger_get, ledger_set,
}
use kxinspect_backend.Db.Store.Backfill.{
  with_breakdown, backfill_cost_breakdowns, IsItemised, backfill_cost_breakdowns_lem,
}
use kxinspect_backend.Db.Store.Ring.{RefinesLog}
use kxinspect_backend.Db.Store.Seed.{seed_snapshot-RefinesLog}
use kxinspect_backend.Services.ChargeService.Ledger.{
  CommandResult, require_epoch, replay, record_success,
}
use kxinspect_backend.Services.ChargeService.Reconcile.{
  is_elapsed, reconcile_charges, reconcile_deadlines, charge_updated_event,
}
use kxinspect_backend.Services.ChargeService.Reconcile.Laws.{settled, reconcile_charges_lem}
use kxinspect_backend.Services.ChargeService.Commands.{charge_mutator, next_charge}
use kxinspect_backend.Services.ChargeService.Commands.Retry.{response_version, retry_after_success}
use kxinspect_backend.Services.ChargeService.Commands.Aliased.{retry_shows_later_state}
use kxinspect_backend.Services.ChargeService.Tasks.{task_mutator, read_mutator}
use kxinspect_backend.Services.ChargeService.Operator.{raised_charge}
use kxinspect_backend.Services.ChargeService.Reads.{next_deadline_micros}
use kxinspect_backend.Services.ChargeService.Reads.Scheduler.{becomes_elapsed, next_deadline_lem}
use kxinspect_backend.Services.ChargeService.Evolution.{IsTraced, Evolves}
use kxinspect_backend.Services.ChargeService.Evolution.Stamped.{IsWellFormed}
use kxinspect_backend.Services.ChargeService.Epoch.{IsRefused, reset_refuses_stale}
use kxinspect_backend.Services.ChargeService.Requests.{
  Request, reconcile_now, apply_charge_command, create_task, IsRouted, Moment, serve_all,
}
use kxinspect_backend.Services.ChargeService.Requests.Run.{
  serve_all-Evolves, serve_all-IsWellFormed, serve_all-RefinesLog, serve_all-version_bound,
}
use kxinspect_backend.Tests.Data.{
  one_day, charge, entities, stream, seeded, store, command, accepting, paying, task, unwrap,
  no_answer,
}

abbrev accept_run : CommitRun CommandResult
accept_run = commit 2000 written (charge_mutator 1500 1600 accepting) store

abbrev accept_answer : CommitResult CommandResult
accept_answer = unwrap no_answer accept_run.result

accept_ok : accept_run.result ≡ ok accept_answer
unfolding commit charge_mutator replay ledger_get ledger_set require_epoch reconcile_deadlines
    reconcile_charges is_elapsed is_expired parse_instant format_instant find_entity transition
    next_charge record_success persist seed_snapshot raised_charge append_events keep_last
accept_ok = refl

accept_fresh : accept_answer.value.replayed ≡ false
unfolding commit charge_mutator replay ledger_get ledger_set require_epoch reconcile_deadlines
    reconcile_charges is_elapsed is_expired parse_instant format_instant find_entity transition
    next_charge record_success persist seed_snapshot raised_charge append_events keep_last
accept_fresh = refl

abbrev pay_run : CommitRun CommandResult
pay_run = commit 3000 written (charge_mutator 2500 2600 paying) accept_run.store

abbrev pay_answer : CommitResult CommandResult
pay_answer = unwrap no_answer pay_run.result

pay_ok : pay_run.result ≡ ok pay_answer
unfolding commit charge_mutator replay ledger_get ledger_set require_epoch reconcile_deadlines
    reconcile_charges is_elapsed is_expired parse_instant format_instant find_entity transition
    next_charge record_success persist seed_snapshot raised_charge append_events keep_last
pay_ok = refl

pay_fresh : pay_answer.value.replayed ≡ false
unfolding commit charge_mutator replay ledger_get ledger_set require_epoch reconcile_deadlines
    reconcile_charges is_elapsed is_expired parse_instant format_instant find_entity transition
    next_charge record_success persist seed_snapshot raised_charge append_events keep_last
pay_fresh = refl

abbrev again_run : CommitRun CommandResult
again_run = commit 9000 failed_before_replace (charge_mutator 8000 8100 accepting) accept_run.store

retry_after_success_example :
    (answer : CommitResult CommandResult) × (again_run.result ≡ ok answer)
    × (answer.value
        ≡ record { body = accept_answer.value.body; status_code = 200; replayed = true })
    × (again_run.store ≡ accept_run.store)
    × (again_run.published ≡ [])
retry_after_success_example =
    retry_after_success 2000 1500 1600 9000 8000 8100 written failed_before_replace accepting store
      seeded accept_answer refl accept_ok accept_fresh

abbrev late_run : CommitRun CommandResult
late_run = commit 9000 written (charge_mutator 8000 8100 accepting) pay_run.store

retry_shows_later_state_example :
    (answer : CommitResult CommandResult) × (late_run.result ≡ ok answer)
    × (answer.value.body ≡ pay_answer.value.body)
    × (response_version accept_answer.value.body < response_version answer.value.body)
retry_shows_later_state_example =
    retry_shows_later_state 2000 1500 1600 3000 2500 2600 9000 8000 8100 written written written
      accepting paying store seeded accept_answer pay_answer refl accept_ok accept_fresh pay_ok
      pay_fresh refl keys_differ
  where
    keys_differ : ◌≢◌ {A = String} "k2" "k1"
    keys_differ h = ground (arith, eq_iff "k2" "k1")

abbrev conflict : Fault
conflict = api (version_conflict "CHG-1" 1 (settled one_day charge))

-- At its deadline the charge is accepted first, so that the version of the client is no longer its own.
abbrev too_late : CommitRun CommandResult
too_late = commit (one_day + 20) written (charge_mutator one_day (one_day + 10) accepting) store

-- A command of before the reset.
reset_refuses_stale_example :
    let after = (reset written entities "epoch-2" stream store).1 in
    IsRefused "epoch-1" "epoch-2" after (commit 5 written (charge_mutator 3 4 accepting) after)
    × IsRefused "epoch-1" "epoch-2" after
        (commit 5 written (task_mutator 4 task "epoch-1" accepting.context) after)
    × IsRefused "epoch-1" "epoch-2" after (commit 5 written (read_mutator "NTF-1" "epoch-1") after)
reset_refuses_stale_example =
    reset_refuses_stale entities "epoch-2" stream store 5 3 4 written accepting task
      accepting.context "NTF-1" epochs_differ
  where
    epochs_differ : ◌≢◌ {A = String} "epoch-1" "epoch-2"
    epochs_differ h = ground (arith, eq_iff "epoch-1" "epoch-2")

-- The scheduler before the deadline of the charge, and after it.
next_deadline_lem_example :
    All (λ c. is_elapsed (86_399_999_990 + 3) c ≡ is_elapsed 86_399_999_990 c) (charge ∷ [])
    × (any_of (becomes_elapsed 86_399_999_990 10) (charge ∷ []) ≡ true)
unfolding next_deadline_micros parse_instant format_instant raised_charge seed_snapshot
next_deadline_lem_example = next_deadline_lem 86_399_999_990 seeded 10 3 refl (omega arith)

reconcile_charges_lem_example :
    ((reconcile_charges one_day (charge ∷ [])).0
      ≡ map (λ c. if is_elapsed one_day c then settled one_day c else c) (charge ∷ []))
    × ((reconcile_charges one_day (charge ∷ [])).1
        ≡ map
            (λ c. charge_updated_event (settled one_day c))
            (filter_by (is_elapsed one_day) (charge ∷ [])))
reconcile_charges_lem_example = reconcile_charges_lem one_day (charge ∷ [])

abbrev moment : ℕ → Moment
moment now = record { commit_at = now + 2; now = now; recorded_at = now + 1; disk = written }

-- Accept, a pass of the scheduler, a task, pay with a failing disk, and pay again.
abbrev requests : List (Moment × Request)
requests =
    (moment 1500, apply_charge_command accepting)
    ∷ (moment 1600, reconcile_now)
    ∷ (moment 1700, create_task task "epoch-1" (command operator_dismiss 1 "k3").context)
    ∷ (record (moment 1800) { disk = failed_after_replace }, apply_charge_command paying)
    ∷ (moment 1900, apply_charge_command paying)
    ∷ []

routed : All (λ r. IsRouted r.1) requests
unfolding actor_for
routed = (refl, (tt, (tt, (refl, (refl, tt)))))

charge-IsTraced : IsTraced charge
unfolding raised_charge
charge-IsTraced = record { moves = 0; trace = here; counted = refl }

charge-IsWellFormed : IsWellFormed charge
unfolding raised_charge breakdown_total default_cost_breakdown
charge-IsWellFormed = record { stamped = refl; itemised = refl }

stream-IsEpoch : IsEpoch stream
stream-IsEpoch = record { nonempty = λ h. cc; plain = (refl, tt) }

serve_all-Evolves_example :
    (new : StoreSnapshot) × ((serve_all requests store).0.snapshot ≡ some new)
    × Evolves (charge ∷ []) new.entities.charges
unfolding seed_snapshot
serve_all-Evolves_example = serve_all-Evolves requests store seeded refl routed

serve_all-IsWellFormed_example :
    (new : StoreSnapshot) × ((serve_all requests store).0.snapshot ≡ some new)
    × All IsWellFormed new.entities.charges
unfolding seed_snapshot
serve_all-IsWellFormed_example =
    serve_all-IsWellFormed requests store seeded refl routed (charge-IsWellFormed, tt)

serve_all-RefinesLog_example :
    (new : StoreSnapshot) × ((serve_all requests store).0.snapshot ≡ some new)
    × RefinesLog new ([] ++ (serve_all requests store).1)
serve_all-RefinesLog_example =
    serve_all-RefinesLog requests store seeded [] refl routed
      (seed_snapshot-RefinesLog entities "epoch-1" stream stream-IsEpoch)

serve_all-version_bound_example :
    (new : StoreSnapshot) × ((serve_all requests store).0.snapshot ≡ some new)
    × All (λ (c : Charge). c.version + rank c.status ≤ 4) new.entities.charges
unfolding seed_snapshot
serve_all-version_bound_example =
    serve_all-version_bound requests store seeded refl routed (charge-IsTraced, tt)

-- A charge of an older state, without a breakdown.
abbrev bare : Charge
bare = with_breakdown charge []

charge-IsItemised : IsItemised charge
unfolding raised_charge breakdown_total default_cost_breakdown
charge-IsItemised = record { filled = refl; adds_up = refl }

backfill_cost_breakdowns_lem_example :
    let filled = backfill_cost_breakdowns (charge ∷ []) (bare ∷ []) in
    All IsItemised filled.0 × (backfill_cost_breakdowns (charge ∷ []) filled.0 ≡ (filled.0, false))
backfill_cost_breakdowns_lem_example =
    backfill_cost_breakdowns_lem (charge ∷ []) (bare ∷ []) (charge-IsItemised, tt) (inl refl, tt)
