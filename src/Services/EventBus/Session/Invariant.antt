-- ===== src/Services/EventBus/Session/Invariant.antt =====
-- What a client has read, at any point of its session.
use mathlib.Core.List.{append-nil, append_assoc}
use kxinspect_backend.Base.{
  ℕ, suc, ◌≤◌, ◌≡◌, refl, sym, ap, ◌∙◌, inl, inr, Bool, true, false, List, [], ◌∷◌, ◌++◌, map,
  length, length-append, arith, Bool-cases, if◌then◌else◌,
}
use kxinspect_backend.Db.Models.{StoredEvent}
use kxinspect_backend.Services.EventBus.{
  Entry, event, wake, Subscriber, is_full, new_subscriber, deliver, publish_to, unregistered,
  close_one, stream_round, none_round,
}
use kxinspect_backend.Services.EventBus.Session.{
  Faithful, Session, Step, Steps, closes, events_of, here, leaves, next, publishes, reads, start,
  yielded,
}

events_of-append : (p q : List Entry) → events_of (p ++ q) ≡ events_of p ++ events_of q
events_of-append [] q = refl
events_of-append (event e ∷ p) q = ap (◌∷◌ e) (events_of-append p q)
events_of-append (wake ∷ p) q = events_of-append p q

events_of-map : (es : List StoredEvent) → events_of (map event es) ≡ es
events_of-map [] = refl
events_of-map (e ∷ es) = ap (◌∷◌ e) (events_of-map es)

length-events : (es : List StoredEvent) → length (map event es) ≡ length es
length-events [] = refl
length-events (e ∷ es) = ap suc (length-events es)

-- What the queue of a subscriber holds after some events were sent to it.
record Delivered (q : List Entry) (es : List StoredEvent) (s : Subscriber) : Type 0 where
  missing : List StoredEvent
  in_order : events_of q ++ es ≡ events_of s.queue ++ missing
  complete : s.registered ≡ true → missing ≡ []
  bounded : length s.queue ≤ s.maxsize
  closed : s.registered ≡ false → s.closed ≡ true

Delivered-deliver :
    (es : List StoredEvent) (s : Subscriber)
    → s.registered ≡ true
    → length s.queue ≤ s.maxsize
    → Delivered s.queue es (deliver es s)
unfolding deliver
Delivered-deliver [] s r b = record {
  missing = [];
  in_order = refl;
  complete = λ _. refl;
  bounded = b;
  closed = λ f. ground arith;
}
Delivered-deliver (e ∷ es) s r b = elim (Bool-cases (is_full s)) [
  | inl full ↦
      rw (full, deliver)
        (record {
          missing = e ∷ es;
          in_order = refl;
          complete = λ f. cc;
          bounded = b;
          closed = λ f. refl;
        })
  | inr room ↦
      let t = record s { queue = s.queue ++ (event e ∷ []) } in
      let d = Delivered-deliver es t r (ground (arith, length-append s.queue (event e ∷ []))) in
      rw room (record {
        missing = d.missing;
        in_order =
            sym (
              ap (λ p. p ++ es) (events_of-append s.queue (event e ∷ []))
              ∙ append_assoc (events_of s.queue) (e ∷ []) es)
            ∙ d.in_order;
        complete = d.complete;
        bounded = d.bounded;
        closed = d.closed;
      })
]

publish_to_registered :
    (es : List StoredEvent) (s : Subscriber) → s.registered ≡ true → publish_to es s ≡ deliver es s
unfolding publish_to
publish_to_registered es s r = ap (λ b. if b then deliver es s else s) r

publish_to_left :
    (es : List StoredEvent) (s : Subscriber) → s.registered ≡ false → publish_to es s ≡ s
unfolding publish_to
publish_to_left es s r = ap (λ b. if b then deliver es s else s) r

longer :
    (sent seen queued missing es : List StoredEvent)
    → sent ≡ seen ++ (queued ++ missing)
    → sent ++ es ≡ seen ++ (queued ++ (missing ++ es))
longer sent seen queued missing es h =
    ap (λ p. p ++ es) h
    ∙ (append_assoc seen (queued ++ missing) es
        ∙ ap (λ p. seen ++ p) (append_assoc queued missing es))

Faithful-publish :
    (x : Session) (es : List StoredEvent)
    → Faithful x
    → Faithful (record x { subscriber = publish_to es x.subscriber; sent = x.sent ++ es })
Faithful-publish x es h = elim (Bool-cases x.subscriber.registered) [
  | inl r ↦
      let d = Delivered-deliver es x.subscriber r h.bounded in
      rw (publish_to_registered es x.subscriber r) (record {
        missing = d.missing;
        in_order =
            longer x.sent x.seen _ h.missing es h.in_order
            ∙ (ap (λ m. x.seen ++ (events_of x.subscriber.queue ++ (m ++ es))) (h.complete r)
                ∙ ap (λ p. x.seen ++ p) d.in_order);
        complete = d.complete;
        bounded = d.bounded;
        closed = d.closed;
      })
  | inr r ↦ rw (publish_to_left es x.subscriber r) (record {
    missing = h.missing ++ es;
    in_order = longer x.sent x.seen _ h.missing es h.in_order;
    complete = λ f. cc;
    bounded = h.bounded;
    closed = h.closed;
  })
]

yielded-none_round : (b : Bool) → yielded (none_round b) ≡ []
yielded-none_round true = refl
yielded-none_round false = refl

-- A round moves the head of the queue, if it is an event, to what was read.
round_moves :
    (q : List Entry) (s : Subscriber)
    → s.queue ≡ q
    → let r = stream_round q s in
      (events_of q ≡ yielded r.0 ++ events_of r.1.queue)
      × (r.1.registered ≡ s.registered)
      × (r.1.closed ≡ s.closed)
      × (r.1.maxsize ≡ s.maxsize)
      × (length r.1.queue ≤ length q)
unfolding stream_round
round_moves [] s h =
    (rw (h, yielded-none_round s.closed), refl, refl, refl, omega (arith, ap length h))
round_moves (event e ∷ q) s h = (refl, refl, refl, refl, omega arith)
round_moves (wake ∷ q) s h = (rw (yielded-none_round s.closed), refl, refl, refl, omega arith)

Faithful-round :
    (x : Session)
    → Faithful x
    → Faithful (record x {
      seen = x.seen ++ yielded (stream_round x.subscriber.queue x.subscriber).0;
      subscriber = (stream_round x.subscriber.queue x.subscriber).1;
    })
Faithful-round x h =
    let (moved, registered, closed, size, shorter) =
      round_moves x.subscriber.queue x.subscriber refl in
    record {
      missing = h.missing;
      in_order =
          h.in_order ∙ (ap (λ p. x.seen ++ (p ++ h.missing)) moved ∙ regroup x.seen _ _ h.missing);
      complete = λ r. h.complete (sym registered ∙ r);
      bounded = omega (arith, h.bounded);
      closed = λ r. closed ∙ h.closed (sym registered ∙ r);
    }
  where
    regroup : (a b c d : List StoredEvent) → a ++ ((b ++ c) ++ d) ≡ (a ++ b) ++ (c ++ d)
    regroup a b c d = simp append_assoc

close_one-queue : (s : Subscriber) → events_of (close_one s).queue ≡ events_of s.queue
unfolding close_one
close_one-queue s =
    ground (arith, events_of-append s.queue (wake ∷ []), append-nil (events_of s.queue))

close_one-bounded :
    (s : Subscriber)
    → length s.queue ≤ s.maxsize
    → length (close_one s).queue ≤ (close_one s).maxsize
unfolding close_one
close_one-bounded s h = ground (arith, length-append s.queue (wake ∷ []))

close_one-registered : (s : Subscriber) → (close_one s).registered ≡ false
unfolding close_one
close_one-registered s = ground arith

close_one-closed :
    (s : Subscriber) → (s.registered ≡ false → s.closed ≡ true) → (close_one s).closed ≡ true
unfolding close_one
close_one-closed s h = elim (Bool-cases s.registered) [
  | inl r ↦ ground arith
  | inr r ↦ ground (arith, h r)
]

Faithful-close :
    (x : Session) → Faithful x → Faithful (record x { subscriber = close_one x.subscriber })
Faithful-close x h = record {
  missing = h.missing;
  in_order = h.in_order ∙ ap (λ p. x.seen ++ (p ++ h.missing)) (sym (close_one-queue x.subscriber));
  complete = λ r. cc (close_one-registered x.subscriber);
  bounded = close_one-bounded x.subscriber h.bounded;
  closed = λ r. close_one-closed x.subscriber h.closed;
}

Faithful-leave :
    (x : Session) → Faithful x → Faithful (record x { subscriber = unregistered x.subscriber })
unfolding unregistered
Faithful-leave x h = record {
  missing = h.missing;
  in_order = h.in_order;
  complete = λ r. cc;
  bounded = h.bounded;
  closed = λ r. refl;
}

Step-Faithful : {x y : Session} → Step x y → Faithful x → Faithful y
Step-Faithful (publishes x es) h = Faithful-publish x es h
Step-Faithful (reads x) h = Faithful-round x h
Step-Faithful (closes x) h = Faithful-close x h
Step-Faithful (leaves x) h = Faithful-leave x h

start-Faithful : (capacity : ℕ) (replay : List StoredEvent) → Faithful (start capacity replay)
unfolding start new_subscriber
start-Faithful capacity replay = record {
  missing = [];
  in_order = sym (append-nil _ ∙ events_of-map replay);
  complete = λ r. refl;
  bounded = omega (arith, length-events replay);
  closed = λ r. cc;
}

-- However publications, reads, closes and departures interleave, a client has read, and will find
-- in its queue, the replay and the published events in order, none skipped and none twice: all of
-- them while it is registered, and the first of them once it is not. Its queue never outgrows its
-- bound, and a client that is out of the broker's set is marked closed.
pub Steps-Faithful :
    (capacity : ℕ) (replay : List StoredEvent) {x : Session}
    → Steps (start capacity replay) x
    → Faithful x
Steps-Faithful capacity replay here = start-Faithful capacity replay
Steps-Faithful capacity replay (next r st) = Step-Faithful st (Steps-Faithful capacity replay r)
