-- ===== src/Api/Events.antt =====
-- `event_stream` of app/api/v1/endpoints/events.py, `reset_demo_state` of app/services/demo_reset.py
-- as the steps of one task among others.
pub mod Resuming
use kxinspect_backend.Base.{
  zero, suc, length, ◌++◌, ℕ, ◌≡◌, ◌≢◌, refl, String, Bool, true, false, Option, none, some, List,
  [], ◌∷◌, map, All, arith, Bool-cases, inl, inr,
}
use kxinspect_backend.Base.Int.{pos}
use kxinspect_backend.Core.Errors.{api, store_unavailable, Result, ok, raise}
use kxinspect_backend.Db.Text.{Text, text_eq}
use kxinspect_backend.Db.Text.RoundTrip.{text_eq_sound}
use kxinspect_backend.Db.Cursor.{
  Parsed, event_id, baseline_cursor, parse_cursor, IsEpoch, parse_cursor-event_id,
}
use kxinspect_backend.Db.Entities.{Entities}
use kxinspect_backend.Db.Models.{StoredEvent, StoreSnapshot}
use kxinspect_backend.Db.Store.{Store, WriteOutcome, written, persist, reset, seed_snapshot}
use kxinspect_backend.Db.Store.Reset.{ResetRun, reset_all}
use kxinspect_backend.Db.Uploads.{Directory}
use kxinspect_backend.Services.ChargeService.Requests.{Moment, Request, serve}
use kxinspect_backend.Services.EventBus.{
  replayable_events, replay_from, EventBroker, Subscriber, register, close_all, close_one, publish,
  publish_to, unregistered, stream_round, wake, event,
}

-- `headers.get("last-event-id") or query_params.get("lastEventId")`
abbrev pub cursor_of : Option Text → Option Text → Option Text
cursor_of none query = query
cursor_of (some []) query = query
cursor_of (some (c ∷ s)) query = some (c ∷ s)

-- The two streams of the handler: the one event that asks for a fresh snapshot, or that of a
-- subscriber who is registered now.
pub data Stream : Type 0 where
  sync_required : Stream
  subscribed : EventBroker → Stream

abbrev pub stream_from : EventBroker → List StoredEvent × Bool → Stream
stream_from broker (replay, false) = sync_required
stream_from broker (replay, true) = subscribed (register broker replay)

abbrev pub stream_of : EventBroker → Option Text → Option StoreSnapshot → Result Stream
stream_of broker cursor none = raise (api store_unavailable)
stream_of broker cursor (some s) =
    ok (
      stream_from broker
        (replayable_events s.events s.stream_epoch s.stream_evicted_through cursor))

-- `event_stream`, under the shared lease and the lock of the store.
unfoldable pub event_stream : Store → EventBroker → Option Text → Option Text → Result Stream
event_stream store broker header query = stream_of broker (cursor_of header query) store.snapshot

-- What another task may do while the reset waits for the exclusive lease: a client opens a stream or
-- reads from its own, by its position, or leaves; a call of the service commits and publishes; and
-- another reset closes the streams, or has its turn with the store.
pub data Action : Type 0 where
  opens : (header query : Option Text) → Action
  reads leaves : (position : ℕ) → Action
  serves : Moment → Request → Action
  closes : Action
  reseeds :
      (write : WriteOutcome) (seed : Entities) (state_epoch : String) (stream_epoch : Text) → Action

-- The part of the application that the two share.
pub record Demo : Type 0 where
  pub store : Store
  pub broker : EventBroker

abbrev pub after_opening : Demo → Result Stream → Demo
after_opening d (ok (subscribed broker)) = record d { broker = broker }
after_opening d answer = d

-- A change of the subscriber at a position, if there is one.
unfoldable pub update_at : ℕ → (Subscriber → Subscriber) → List Subscriber → List Subscriber
update_at i f [] = []
update_at zero f (s ∷ ss) = f s ∷ ss
update_at (suc i) f (s ∷ ss) = s ∷ update_at i f ss

abbrev pub with_subscriber : ℕ → (Subscriber → Subscriber) → Demo → Demo
with_subscriber i f d = record d {
  broker = record d.broker { subscribers = update_at i f d.broker.subscribers };
}

abbrev pub after_read : Subscriber → Subscriber
after_read s = (stream_round s.queue s).1

unfoldable pub act : Action → Demo → Demo
act (opens header query) d = after_opening d (event_stream d.store d.broker header query)
act (reads i) d = with_subscriber i after_read d
act (leaves i) d = with_subscriber i unregistered d
act (serves m request) d =
    let run = serve m request d.store in record { store = run.0; broker = publish run.1 d.broker }
act closes d = record d { broker = close_all d.broker }
act (reseeds write seed state_epoch stream_epoch) d = record d {
  store = (reset write seed state_epoch stream_epoch d.store).1;
}

unfoldable pub act_all : List Action → Demo → Demo
act_all [] d = d
act_all (action ∷ rest) d = act_all rest (act action d)

-- What `reset_demo_state` leaves.
pub record DemoReset : Type 0 where
  pub run : ResetRun
  pub broker : EventBroker

-- `reset_demo_state`: the streams are closed, other tasks run until the lease is free, and the store
-- is reset under it.
unfoldable pub reset_demo_state :
    List Action → WriteOutcome → Entities → String → Text → Directory → Demo → DemoReset
reset_demo_state between write seed state_epoch stream_epoch uploads d =
    let waited = act_all between (record d { broker = close_all d.broker }) in
    record {
      run = reset_all write seed state_epoch stream_epoch waited.store uploads;
      broker = waited.broker;
    }
