-- ===== src/Services/EventBus/Session.antt =====
-- One client of the broker: its subscriber, what it has read and what the broker was given for it.
-- The broker's methods and the reader's rounds interleave in any order.
pub mod Invariant
use mathlib.Core.List.{append-nil, append_assoc}
use kxinspect_backend.Base.{
  ℕ, suc, ◌≤◌, ◌≡◌, refl, sym, ap, ◌∙◌, inl, inr, Bool, true, false, List, [], ◌∷◌, ◌++◌, map,
  length, length-append, arith, Bool-cases, if◌then◌else◌,
}
use kxinspect_backend.Db.Models.{StoredEvent}
use kxinspect_backend.Services.EventBus.{
  Entry, event, wake, Subscriber, is_full, new_subscriber, deliver, publish_to, unregistered,
  close_one, Round, yields, waits, ends, stream_round, none_round,
}

-- The events of a queue, without wake-ups.
abbrev pub events_of : List Entry → List StoredEvent
events_of [] = []
events_of (event e ∷ q) = e ∷ events_of q
events_of (wake ∷ q) = events_of q

abbrev pub yielded : Round → List StoredEvent
yielded (yields e) = e ∷ []
yielded waits = []
yielded ends = []

pub record Session : Type 0 where
  pub seen : List StoredEvent
  pub subscriber : Subscriber
  pub sent : List StoredEvent

-- `sent` starts as the replay.
unfoldable pub start : ℕ → List StoredEvent → Session
start queue_capacity replay = record {
  seen = [];
  subscriber = new_subscriber queue_capacity replay;
  sent = replay;
}

pub data Step : Session → Session → Type 0 where
  publishes :
      (x : Session) (es : List StoredEvent)
      → Step x (record x { subscriber = publish_to es x.subscriber; sent = x.sent ++ es })
  reads :
      (x : Session)
      → Step x (record x {
        seen = x.seen ++ yielded (stream_round x.subscriber.queue x.subscriber).0;
        subscriber = (stream_round x.subscriber.queue x.subscriber).1;
      })
  closes : (x : Session) → Step x (record x { subscriber = close_one x.subscriber })
  leaves : (x : Session) → Step x (record x { subscriber = unregistered x.subscriber })

pub data Steps (x : Session) : Session → Type 0 where
  here : Steps x x
  next : {y z : Session} → Steps x y → Step y z → Steps x z

-- What was read and what waits in the queue are the first of the events sent, in order; for a
-- registered client they are all of them. The queue keeps its bound, and who left is closed.
pub record Faithful (x : Session) : Type 0 where
  pub missing : List StoredEvent
  pub in_order : x.sent ≡ x.seen ++ (events_of x.subscriber.queue ++ missing)
  pub complete : x.subscriber.registered ≡ true → missing ≡ []
  pub bounded : length x.subscriber.queue ≤ x.subscriber.maxsize
  pub closed : x.subscriber.registered ≡ false → x.subscriber.closed ≡ true
