-- ===== src/Tests/Stream.antt =====
-- The store's commits, its event stream and its cursors at concrete values.
use kxinspect_backend.Base.{
  ◌<◌, ◌≤◌, ◌⊎◌, ℕ, ◌+◌, ◌≡◌, refl, true, false, none, some, List, [], ◌∷◌, ◌++◌, drop, ltb, arith,
  if◌then◌else◌,
}
use kxinspect_backend.Base.Int.{pos}
use kxinspect_backend.Core.Errors.{ok}
use kxinspect_backend.Db.Cursor.{
  baseline_cursor_lem, event_id, baseline_cursor, IsEpoch, parse_cursor, parse_cursor-event_id,
}
use kxinspect_backend.Db.Models.{StoredEvent, StoreSnapshot}
use kxinspect_backend.Db.Store.{Mutator, failed_after_replace, commit, seed_snapshot, append_events}
use kxinspect_backend.Db.Barrier.{
  enter_shared, leave_shared, enter_exclusive, Leases, no_leases, shares, unshares, LeaseSteps,
  at_rest, after, LeaseSteps-exclusion,
}
use kxinspect_backend.Db.Store.Atomic.{AllOrNothing, commit-AllOrNothing}
use kxinspect_backend.Db.Store.Ring.{
  done, RefinesLog, mark, evicted_count, append_events-RefinesLog,
}
use kxinspect_backend.Db.Store.Publish.{KeepsStream}
use kxinspect_backend.Db.Store.Seed.{seed_snapshot-RefinesLog}
use kxinspect_backend.Services.EventBus.{event, Subscriber, replayable_events, read_rounds}
use kxinspect_backend.Services.EventBus.Replay.{resume_exact}
use kxinspect_backend.Services.EventBus.Closing.{closed_stream_ends}
use kxinspect_backend.Services.EventBus.Session.Invariant.{Steps-Faithful}
use kxinspect_backend.Services.EventBus.Session.{
  Session, start, here, next, publishes, reads, Steps, Faithful,
}
use kxinspect_backend.Tests.Data.{entities, stream, seeded, store, draft, some_event}

stream-IsEpoch : IsEpoch stream
stream-IsEpoch = record { nonempty = λ h. cc; plain = (refl, tt) }

parse_cursor-event_id_example :
    parse_cursor (event_id stream 12 3)
    ≡ some (record { epoch = stream; revision = pos 12; ordinal = pos 3 })
parse_cursor-event_id_example = parse_cursor-event_id stream 12 3 stream-IsEpoch

-- A mutator that only emits one event.
abbrev emit : Mutator ℕ
emit s = ok (record { value = 7; events = draft ∷ []; persist = true; deferred_error = none }, s)

emit-KeepsStream : KeepsStream emit
emit-KeepsStream = record {
  at = λ s o s' h.
      let p : s ≡ s' = ground arith in
      rw p (record { epoch = refl; cursor = refl; evicted = refl; events = refl });
}

commit-AllOrNothing_example :
    AllOrNothing failed_after_replace store seeded (commit 9000 failed_after_replace emit store)
commit-AllOrNothing_example = commit-AllOrNothing 9000 failed_after_replace emit store seeded refl

seeded_refines : RefinesLog seeded []
seeded_refines = seed_snapshot-RefinesLog entities "epoch-1" stream stream-IsEpoch

-- The snapshot at the next revision with one event, and its log.
abbrev bumped : StoreSnapshot
bumped = record seeded { store_revision = 2 }

abbrev one_log : List StoredEvent
one_log = [] ++ (append_events 9000 bumped (draft ∷ [])).1

abbrev bumped_refines : RefinesLog bumped []
unfolding seed_snapshot
bumped_refines = record {
  epoch_ok = stream-IsEpoch;
  top_revision = 0;
  top_ordinal = 0;
  chain = done;
  cursor = baseline_cursor_lem stream;
  ring = refl;
  evicted = refl;
  below = omega arith;
}

abbrev after_one : StoreSnapshot
after_one = (append_events 9000 bumped (draft ∷ [])).0

resume_exact_example :
    replayable_events after_one.events after_one.stream_epoch after_one.stream_evicted_through
      (some (mark (baseline_cursor after_one.stream_epoch) one_log 0))
    ≡ (if ltb 0 (evicted_count one_log) then ([], false) else (drop 0 one_log, true))
unfolding bumped_refines
resume_exact_example =
    resume_exact after_one one_log 0
      (append_events-RefinesLog 9000 bumped (draft ∷ []) [] bumped_refines (omega arith))
      (omega arith)

-- One event is published to the client, which reads it.
abbrev session_steps : (x : Session) × Steps (start 2 (some_event stream ∷ [])) x
session_steps = (
  _,
  next (next here (publishes (start 2 (some_event stream ∷ [])) (some_event [] ∷ []))) (reads _),
)

Steps-Faithful_example : Faithful session_steps.0
Steps-Faithful_example = Steps-Faithful 2 (some_event stream ∷ []) session_steps.1

abbrev closed_subscriber : Subscriber
closed_subscriber = record {
  queue = event (some_event stream) ∷ [];
  maxsize = 1;
  closed = true;
  registered = false;
}

closed_stream_ends_example : (read_rounds 2 closed_subscriber).1 ≡ true
closed_stream_ends_example = closed_stream_ends 2 closed_subscriber refl (omega arith)

-- Two readers enter, and one of them leaves.
abbrev one_reader : Leases
one_reader = record {
  barrier = record { shared_count = 1; is_exclusive = false };
  sharing = 1;
  alone = 0;
}

lease_steps : LeaseSteps no_leases one_reader
unfolding enter_shared leave_shared
lease_steps =
    after (after (after at_rest (shares no_leases _ refl)) (shares one_reader _ refl))
      (unshares _ (omega arith))

LeaseSteps-exclusion_example :
    (one_reader.alone ≤ 1)
    × ((one_reader.alone ≡ 0) ⊎ (one_reader.sharing ≡ 0))
    × ((0 < one_reader.sharing + one_reader.alone)
        ⊎ ((enter_shared one_reader.barrier ≡ some (record one_reader.barrier { shared_count = 1 }))
            × (enter_exclusive one_reader.barrier
                ≡ some (record one_reader.barrier { is_exclusive = true }))))
LeaseSteps-exclusion_example = LeaseSteps-exclusion lease_steps
