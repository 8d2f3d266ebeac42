-- ===== src/Services/EventBus/Closing.antt =====
-- The end of a closed subscriber's stream.
use kxinspect_backend.Base.{ℕ, zero, suc, ◌<◌, ◌≡◌, refl, true, List, [], ◌∷◌, length, arith}
use kxinspect_backend.Services.EventBus.{
  Entry, event, wake, Subscriber, stream_round, after_round, read_rounds,
}

round_closed :
    (q : List Entry) (s : Subscriber) (n : ℕ)
    → s.queue ≡ q
    → s.closed ≡ true
    → ((t : Subscriber) → t.closed ≡ true → length t.queue < n → (read_rounds n t).1 ≡ true)
    → length q < suc n
    → (after_round (stream_round q s).0 (read_rounds n (stream_round q s).1)).1 ≡ true
unfolding stream_round
round_closed [] s n e c ih lt = rw c
round_closed (event x ∷ q) s n e c ih lt = ih (record s { queue = q }) c (omega arith)
round_closed (wake ∷ q) s n e c ih lt = rw c

-- The stream of a closed subscriber ends by itself, after at most one round more than its queue has
-- entries, whether or not the wake-up fitted into the queue.
pub closed_stream_ends :
    (n : ℕ) (s : Subscriber) → s.closed ≡ true → length s.queue < n → (read_rounds n s).1 ≡ true
unfolding read_rounds
closed_stream_ends zero s c lt = elim lt [ ]
closed_stream_ends (suc n) s c lt = round_closed s.queue s n refl c (closed_stream_ends n) lt
