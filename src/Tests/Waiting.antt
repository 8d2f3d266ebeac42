-- ===== src/Tests/Waiting.antt =====
-- Witnesses on the deadline loop and on a demo reset, where other tasks run in between.
use kxinspect_backend.Base.{
  ℕ, ◌+◌, ◌≤◌, ◌<◌, ◌≡◌, refl, true, false, none, some, Option, List, [], ◌∷◌, arith, All, map,
}
use kxinspect_backend.Core.Clock.{DateTime, format_instant, parse_instant}
use kxinspect_backend.Core.Errors.{ok}
use kxinspect_backend.Domain.ChargeState.{ChargeStatus, outstanding, accepted, transition}
use kxinspect_backend.Domain.Deadline.{is_expired}
use kxinspect_backend.Db.Text.{Text}
use kxinspect_backend.Db.Cursor.{event_id, IsEpoch}
use kxinspect_backend.Db.Entities.{Charge}
use kxinspect_backend.Db.Models.{StoreSnapshot}
use kxinspect_backend.Db.Store.{
  Store, written, seed_snapshot, commit, append_events, keep_last, persist,
}
use kxinspect_backend.Services.ChargeService.Operator.{raised_charge}
use kxinspect_backend.Services.ChargeService.Reconcile.{
  is_elapsed, accept_elapsed, reconcile_charges, reconcile_deadlines, reconcile_mutator,
}
use kxinspect_backend.Services.Deadlines.Missed.{OnlyMissed, deadline_loop-OnlyMissed}
use kxinspect_backend.Services.Deadlines.{WakeClock, wake, deadline_loop, outstanding_count}
use kxinspect_backend.Services.EventBus.{
  EventBroker, Subscriber, replayable_events, register, close_all, close_one,
}
use kxinspect_backend.Services.ChargeService.Evolution.{Evolves}
use kxinspect_backend.Services.ChargeService.Reads.{next_deadline_micros}
use kxinspect_backend.Api.Events.{
  sync_required, event_stream, Action, opens, act, act_all, Demo, DemoReset, reset_demo_state,
}
use kxinspect_backend.Api.Events.Resuming.{AreGone, reset_demo_state-sync_required}
use kxinspect_backend.Tests.Data.{charge, entities, stream, store}

-- A second charge, whose deadline is four milliseconds after that of the first.
abbrev second : Charge
second = record charge {
  facts = record charge.facts { id = "CHG-2"; deadline_at = record { millis = 86_400_004 } };
}

abbrev two : StoreSnapshot
two = seed_snapshot (record entities { charges = charge ∷ second ∷ [] }) "epoch-1" stream

abbrev two_store : Store
two_store = record { snapshot = some two; disk = some two }

-- Two milliseconds pass on the way to the clock of the commit, and three from there to the arming.
abbrev slow : ℕ → WakeClock
slow n = record { late = 7; committing = 2000; arming = 3000 }

two_idle : All (λ c. is_elapsed 0 c ≡ false) two.entities.charges
unfolding is_elapsed is_expired parse_instant format_instant raised_charge seed_snapshot
two_idle = (refl, (refl, tt))

two_outstanding : outstanding_count two.entities.charges < 3
unfolding outstanding_count raised_charge seed_snapshot
two_outstanding = omega arith

statuses : Option (DateTime × Store) → List ChargeStatus
statuses none = []
statuses (some r) = elim r.1.snapshot [
  | none ↦ []
  | some s ↦ map (λ (c : Charge). c.status) s.entities.charges
]

-- The loop ends with the second charge outstanding, past its deadline.
second_missed : statuses (deadline_loop slow 3 0 two_store) ≡ accepted ∷ outstanding ∷ []
unfolding statuses deadline_loop wake next_deadline_micros reconcile_mutator commit persist
    append_events keep_last reconcile_deadlines reconcile_charges accept_elapsed is_elapsed
    is_expired parse_instant format_instant transition raised_charge seed_snapshot
second_missed = refl

deadline_loop-OnlyMissed_example :
    (reconciled_at : DateTime) × (armed_at : DateTime) × (after : Store) × (t : StoreSnapshot)
    × (deadline_loop slow 3 0 two_store ≡ some (armed_at, after))
    × (after.snapshot ≡ some t)
    × (armed_at ≤ reconciled_at + 5000)
    × OnlyMissed reconciled_at armed_at t.entities.charges
    × Evolves two.entities.charges t.entities.charges
deadline_loop-OnlyMissed_example =
    deadline_loop-OnlyMissed slow 5000 3 0 0 two_store two (λ n. omega arith) (omega arith) refl
      two_idle two_outstanding

stream-IsEpoch : IsEpoch stream
stream-IsEpoch = record { nonempty = λ h. cc; plain = (refl, tt) }

abbrev broker : EventBroker
broker = record {
  queue_capacity = 4;
  subscribers = record { queue = []; maxsize = 4; closed = false; registered = true } ∷ [];
}

-- A stream epoch that is not the first.
abbrev next_stream : Text
next_stream = b'e' ∷ b'2' ∷ []

abbrev demo : Demo
demo = record { store = store; broker = broker }

-- A client opens a stream while the reset waits.
abbrev between : List Action
between = opens none none ∷ []

abbrev after_reset : DemoReset
after_reset = reset_demo_state between written entities "epoch-2" next_stream none demo

-- That stream is still there after the reset.
opened_remains :
    map (λ (s : Subscriber). s.registered) after_reset.broker.subscribers ≡ false ∷ true ∷ []
unfolding reset_demo_state act_all act event_stream replayable_events register close_all close_one
    seed_snapshot
opened_remains = refl

reset_demo_state-sync_required_example :
    AreGone 1 after_reset.broker.subscribers
    × (event_stream after_reset.run.store after_reset.broker (some (event_id stream 4 1)) none
        ≡ ok sync_required)
reset_demo_state-sync_required_example =
    reset_demo_state-sync_required between entities "epoch-2" stream next_stream none demo 4 1 none
      stream-IsEpoch (λ h. cc)
