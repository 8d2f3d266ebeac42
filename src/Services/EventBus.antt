-- ===== src/Services/EventBus.antt =====
-- app/services/event_bus.py: the replay of a reconnecting client, and the broker with its bounded
-- queues. A subscriber is an object with an identity: here a position in a list that only grows,
-- and membership in the broker's set is the flag `registered`. The broker's lock makes each method
-- one step, and the members of the set are served independently, so their order is not modelled.
pub mod Replay
pub mod Session
pub mod Closing
use kxinspect_backend.Base.{
  ℕ, zero, suc, ◌+◌, ◌-◌, max, Bool, true, false, not, Option, none, some, List, [], ◌∷◌, ◌++◌, map,
  length, leb, if◌then◌else◌, filter_by,
}
use kxinspect_backend.Base.Int.{ℤ, pos, ltb_pair}
use kxinspect_backend.Db.Text.{Text, text_eq}
use kxinspect_backend.Db.Cursor.{Parsed, parse_cursor}
use kxinspect_backend.Db.Models.{StoredEvent}

abbrev pub position_or_zero : Option Parsed → ℤ × ℤ
position_or_zero none = (pos 0, pos 0)
position_or_zero (some p) = (p.revision, p.ordinal)

-- `_position`
unfoldable pub position : StoredEvent → ℤ × ℤ
position event = position_or_zero (parse_cursor event.id)

-- An event after a cursor's position.
abbrev pub is_after : ℤ → ℤ → StoredEvent → Bool
is_after revision ordinal event = let p = position event in ltb_pair revision ordinal p.0 p.1

-- The tests of `replayable_events` once the cursor has parsed.
abbrev pub replay_from :
    List StoredEvent → Text → Option Parsed → Option Parsed → List StoredEvent × Bool
replay_from events stream_epoch none evicted = ([], false)
replay_from events stream_epoch (some cursor) none = ([], false)
replay_from events stream_epoch (some cursor) (some evicted) =
    if not (text_eq cursor.epoch stream_epoch)
    then ([], false)
    else if not (text_eq evicted.epoch stream_epoch)
    then ([], false)
    else if ltb_pair cursor.revision cursor.ordinal evicted.revision evicted.ordinal
    then ([], false)
    else (filter_by (is_after cursor.revision cursor.ordinal) events, true)

-- `replayable_events`: the events to replay, and whether the cursor can be served.
unfoldable pub replayable_events :
    List StoredEvent → Text → Text → Option Text → List StoredEvent × Bool
replayable_events events stream_epoch evicted_through none = ([], true)
replayable_events events stream_epoch evicted_through (some cursor) =
    replay_from events stream_epoch (parse_cursor cursor) (parse_cursor evicted_through)

-- A queue entry: an event, or the `None` that wakes the reader of a closed stream.
pub data Entry : Type 0 where
  event : StoredEvent → Entry
  wake : Entry

pub record Subscriber : Type 0 where
  pub queue : List Entry
  pub maxsize : ℕ
  pub closed : Bool
  pub registered : Bool

pub record EventBroker : Type 0 where
  pub queue_capacity : ℕ
  pub subscribers : List Subscriber

abbrev pub is_full : Subscriber → Bool
is_full s = leb s.maxsize (length s.queue)

-- `put_nowait`, with QueueFull suppressed.
abbrev pub put_quietly : Entry → Subscriber → Subscriber
put_quietly x s = if is_full s then s else record s { queue = s.queue ++ (x ∷ []) }

-- The subscriber that `register` makes, its queue filled with the replay.
unfoldable pub new_subscriber : ℕ → List StoredEvent → Subscriber
new_subscriber queue_capacity replay = record {
  queue = map event replay;
  maxsize = max queue_capacity (length replay + 1);
  closed = false;
  registered = true;
}

unfoldable pub register : EventBroker → List StoredEvent → EventBroker
unfolding new_subscriber
register b replay = record b {
  subscribers = b.subscribers ++ (new_subscriber b.queue_capacity replay ∷ []);
}

-- The subscriber is closed and leaves the set; the wake-up may not fit.
abbrev pub overflow : Subscriber → Subscriber
overflow s = put_quietly wake (record s { closed = true; registered = false })

-- The inner loop of `publish`, for one subscriber: the first event that does not fit ends it.
unfoldable pub deliver : List StoredEvent → Subscriber → Subscriber
deliver [] s = s
deliver (e ∷ es) s =
    let rest = deliver es (record s { queue = s.queue ++ (event e ∷ []) }) in
    if is_full s then overflow s else rest

unfoldable pub publish_to : List StoredEvent → Subscriber → Subscriber
publish_to events s = if s.registered then deliver events s else s

unfoldable pub publish : List StoredEvent → EventBroker → EventBroker
unfolding publish_to
publish [] b = b
publish (e ∷ es) b = record b { subscribers = map (publish_to (e ∷ es)) b.subscribers }

-- `unregister`, for the subscriber itself.
unfoldable pub unregistered : Subscriber → Subscriber
unregistered s = record s { registered = false; closed = true }

unfoldable pub close_one : Subscriber → Subscriber
close_one s =
    if s.registered
    then record (put_quietly wake (record s { closed = true })) { registered = false }
    else s

unfoldable pub close_all : EventBroker → EventBroker
unfolding close_one
close_all b = record b { subscribers = map close_one b.subscribers }

-- What one round of `_stream` in app/api/v1/endpoints/events.py does after `next_event`: it yields
-- an event, waits on after a heartbeat, or ends the stream.
pub data Round : Type 0 where
  yields : StoredEvent → Round
  waits : Round
  ends : Round

abbrev pub none_round : Bool → Round
none_round true = ends
none_round false = waits

-- `next_event` and the round: an empty queue is a timeout, which like a wake-up gives `None`.
unfoldable pub stream_round : List Entry → Subscriber → Round × Subscriber
stream_round [] s = (none_round s.closed, s)
stream_round (event e ∷ rest) s = (yields e, record s { queue = rest })
stream_round (wake ∷ rest) s = (none_round s.closed, record s { queue = rest })

abbrev pub after_round : Round → List StoredEvent × Bool → List StoredEvent × Bool
after_round (yields e) rest = (e ∷ rest.0, rest.1)
after_round waits rest = rest
after_round ends rest = ([], true)

-- The loop of `_stream` for a number of rounds: what it yields, and whether it has ended.
unfoldable pub read_rounds : ℕ → Subscriber → List StoredEvent × Bool
read_rounds zero s = ([], false)
read_rounds (suc n) s = let r = stream_round s.queue s in after_round r.0 (read_rounds n r.1)
