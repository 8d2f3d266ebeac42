-- ===== src/Api/Events/Resuming.antt =====
-- A demo reset of app/services/demo_reset.py, the streams that were open and the clients that resume.
use kxinspect_backend.Base.{
  zero, suc, length, ◌++◌, ℕ, ◌≡◌, ◌≢◌, refl, String, Bool, true, false, Option, none, some, List,
  [], ◌∷◌, map, arith, Bool-cases, inl, inr,
}
use kxinspect_backend.Base.Int.{pos}
use kxinspect_backend.Core.Errors.{ok}
use kxinspect_backend.Db.Text.{Text, text_eq}
use kxinspect_backend.Db.Text.RoundTrip.{text_eq_sound}
use kxinspect_backend.Db.Cursor.{
  Parsed, event_id, baseline_cursor, parse_cursor, IsEpoch, parse_cursor-event_id,
}
use kxinspect_backend.Db.Entities.{Entities}
use kxinspect_backend.Db.Models.{StoredEvent, StoreSnapshot}
use kxinspect_backend.Db.Store.{written, persist, reset, seed_snapshot}
use kxinspect_backend.Db.Store.Reset.{reset_all}
use kxinspect_backend.Db.Uploads.{Directory}
use kxinspect_backend.Services.ChargeService.Requests.{serve}
use kxinspect_backend.Services.EventBus.{
  replayable_events, replay_from, EventBroker, Subscriber, register, close_all, close_one, publish,
  publish_to, unregistered, stream_round, wake, event, Entry,
}
use kxinspect_backend.Api.Events.{
  cursor_of, sync_required, stream_from, stream_of, event_stream, Action, opens, reads, leaves,
  serves, closes, reseeds, Demo, after_opening, update_at, after_read, act, act_all,
  reset_demo_state,
}

text_eq-ne : (s t : Text) → s ≢ t → text_eq s t ≡ false
text_eq-ne s t h = elim (Bool-cases (text_eq s t)) [
  | inl e ↦ absurd (h (text_eq_sound s t e))
  | inr e ↦ e
]

cursor_of-some :
    (header : Text) (query : Option Text)
    → header ≢ []
    → cursor_of (some header) query ≡ some header
cursor_of-some [] query h = absurd (h refl)
cursor_of-some (c ∷ s) query h = refl

event_id-ne-nil : (epoch : Text) (r o : ℕ) → epoch ≢ [] → event_id epoch r o ≢ []
unfolding event_id
event_id-ne-nil [] r o h e = h refl
event_id-ne-nil (c ∷ epoch) r o h e = cc

replay_other_epoch :
    (events : List StoredEvent) (epoch : Text) (p : Parsed) (evicted : Option Parsed)
    → p.epoch ≢ epoch
    → replay_from events epoch (some p) evicted ≡ ([], false)
replay_other_epoch events epoch p none h = refl
replay_other_epoch events epoch p (some q) h = rw (text_eq-ne p.epoch epoch h)

-- The first subscribers, as many as the number says, are there and are not registered.
pub data AreGone : ℕ → List Subscriber → Type 0 where
  none_left : (ss : List Subscriber) → AreGone zero ss
  one_more :
      {n : ℕ} (s : Subscriber) {ss : List Subscriber}
      → s.registered ≡ false
      → AreGone n ss
      → AreGone (suc n) (s ∷ ss)

-- A change of a subscriber that does not register it again.
abbrev KeepsGone : (Subscriber → Subscriber) → Type 0
KeepsGone f = (s : Subscriber) → s.registered ≡ false → (f s).registered ≡ false

AreGone-map :
    {n : ℕ} {ss : List Subscriber} (f : Subscriber → Subscriber)
    → KeepsGone f
    → AreGone n ss
    → AreGone n (map f ss)
AreGone-map f keeps (none_left ss) = none_left (map f ss)
AreGone-map f keeps (one_more s h rest) = one_more (f s) (keeps s h) (AreGone-map f keeps rest)

AreGone-update_at :
    {n : ℕ} {ss : List Subscriber} (i : ℕ) (f : Subscriber → Subscriber)
    → KeepsGone f
    → AreGone n ss
    → AreGone n (update_at i f ss)
unfolding update_at
AreGone-update_at i f keeps (none_left ss) = none_left (update_at i f ss)
AreGone-update_at zero f keeps (one_more s h rest) = one_more (f s) (keeps s h) rest
AreGone-update_at (suc i) f keeps (one_more s h rest) =
    one_more s h (AreGone-update_at i f keeps rest)

AreGone-append :
    {n : ℕ} {ss : List Subscriber} (more : List Subscriber) → AreGone n ss → AreGone n (ss ++ more)
AreGone-append more (none_left ss) = none_left (ss ++ more)
AreGone-append more (one_more s h rest) = one_more s h (AreGone-append more rest)

close_one-registered : (s : Subscriber) → (close_one s).registered ≡ false
unfolding close_one
close_one-registered s = ground arith

AreGone-close_one : (ss : List Subscriber) → AreGone (length ss) (map close_one ss)
AreGone-close_one [] = none_left []
AreGone-close_one (s ∷ ss) = one_more (close_one s) (close_one-registered s) (AreGone-close_one ss)

publish_to-gone : (events : List StoredEvent) → KeepsGone (publish_to events)
unfolding publish_to
publish_to-gone events s h = ground arith

stream_round-gone :
    (queue : List Entry) (s : Subscriber)
    → s.registered ≡ false
    → (stream_round queue s).1.registered ≡ false
unfolding stream_round
stream_round-gone [] s h = h
stream_round-gone (event e ∷ queue) s h = ground arith
stream_round-gone (wake ∷ queue) s h = ground arith

after_read-gone : KeepsGone after_read
after_read-gone s h = stream_round-gone s.queue s h

AreGone-publish :
    {n : ℕ} (events : List StoredEvent) (b : EventBroker)
    → AreGone n b.subscribers
    → AreGone n (publish events b).subscribers
unfolding publish
AreGone-publish [] b h = h
AreGone-publish (e ∷ es) b h = AreGone-map (publish_to (e ∷ es)) (publish_to-gone (e ∷ es)) h

AreGone-stream_from :
    {n : ℕ} (d : Demo) (replayed : List StoredEvent × Bool)
    → AreGone n d.broker.subscribers
    → AreGone n (after_opening d (ok (stream_from d.broker replayed))).broker.subscribers
unfolding register
AreGone-stream_from d (replay, false) h = h
AreGone-stream_from d (replay, true) h = AreGone-append _ h

AreGone-opening :
    {n : ℕ} (d : Demo) (cursor : Option Text) (current : Option StoreSnapshot)
    → AreGone n d.broker.subscribers
    → AreGone n (after_opening d (stream_of d.broker cursor current)).broker.subscribers
AreGone-opening d cursor none h = h
AreGone-opening d cursor (some s) h =
    AreGone-stream_from d
      (replayable_events s.events s.stream_epoch s.stream_evicted_through cursor) h

AreGone-act :
    {n : ℕ} (action : Action) (d : Demo)
    → AreGone n d.broker.subscribers
    → AreGone n (act action d).broker.subscribers
unfolding act event_stream close_all
AreGone-act (opens header query) d h = AreGone-opening d (cursor_of header query) d.store.snapshot h
AreGone-act (reads i) d h = AreGone-update_at i after_read after_read-gone h
AreGone-act (leaves i) d h = AreGone-update_at i unregistered (λ s e. unfold unregistered in refl) h
AreGone-act (serves m request) d h = AreGone-publish (serve m request d.store).1 d.broker h
AreGone-act closes d h = AreGone-map close_one (λ s e. close_one-registered s) h
AreGone-act (reseeds write seed state_epoch stream_epoch) d h = h

AreGone-act_all :
    {n : ℕ} (actions : List Action) (d : Demo)
    → AreGone n d.broker.subscribers
    → AreGone n (act_all actions d).broker.subscribers
unfolding act_all
AreGone-act_all [] d h = h
AreGone-act_all (action ∷ rest) d h = AreGone-act_all rest (act action d) (AreGone-act action d h)

-- Take a demo reset that is written, under a new stream epoch, and whatever other tasks do while it
-- waits for the exclusive lease: clients that open streams, read and leave, calls of the service and
-- other resets. The streams that were open when it began have left the broker; and a client that
-- comes back afterwards with the id of any event of the old epoch is told to take a fresh snapshot,
-- whatever the revision and ordinal of that event.
pub reset_demo_state-sync_required :
    (between : List Action) (seed : Entities) (state_epoch : String) (old new : Text)
    (uploads : Directory) (d : Demo) (revision ordinal : ℕ) (query : Option Text)
    → IsEpoch old
    → old ≢ new
    → let after = reset_demo_state between written seed state_epoch new uploads d in
      AreGone (length d.broker.subscribers) after.broker.subscribers
      × (event_stream after.run.store after.broker (some (event_id old revision ordinal)) query
          ≡ ok sync_required)
unfolding reset_demo_state reset_all reset persist seed_snapshot event_stream replayable_events
    close_all
reset_demo_state-sync_required between seed state_epoch old new uploads d revision ordinal query h
      differ =
    (
      AreGone-act_all between (record d { broker = close_all d.broker })
          (AreGone-close_one d.broker.subscribers),
      rw
          (
            cursor_of-some (event_id old revision ordinal) query
                (event_id-ne-nil old revision ordinal h.nonempty),
            parse_cursor-event_id old revision ordinal h,
            replay_other_epoch [] new
                (record { epoch = old; revision = pos revision; ordinal = pos ordinal })
                (parse_cursor (baseline_cursor new)) differ,
          )
          refl,
    )
