-- ===== src/Db/Store/Ring.antt =====
-- The event ring of `_append_events` against the log of all events of a stream epoch.
use mathlib.Core.List.{append-nil}
use native.Mathlib.Nat.{suc-add}
use kxinspect_backend.Base.{
  drop-drop, ℕ, zero, suc, ◌+◌, ◌-◌, ◌≤◌, ◌<◌, ◌≡◌, ◌⊎◌, refl, sym, ap, ◌∙◌, inl, inr, List, [],
  ◌∷◌, ◌++◌, length, take, drop, length-append, length-drop, arith,
}
use kxinspect_backend.Core.Clock.{DateTime, Stamp, format_instant}
use kxinspect_backend.Db.Text.{Text}
use kxinspect_backend.Db.Cursor.{event_id, baseline_cursor, IsEpoch}
use kxinspect_backend.Db.Models.{StoredEvent, StoreSnapshot}
use kxinspect_backend.Db.Store.{
  event_ring_capacity, DraftEvent, stored_from, last_id, keep_last, append_events,
}

-- The order of positions, a revision and an ordinal.
abbrev pub Before : ℕ → ℕ → ℕ → ℕ → Type 0
Before r o r' o' = (r < r') ⊎ ((r ≡ r') × (o < o'))

-- Events of one epoch in strictly increasing positions, after the first and up to the second
-- position; each id is the one that its position has.
pub data Chain (epoch : Text) : ℕ → ℕ → List StoredEvent → ℕ → ℕ → Type 0 where
  done : {r o : ℕ} → Chain epoch r o [] r o
  next :
      {r o r' o' r'' o'' : ℕ} {e : StoredEvent} {es : List StoredEvent}
      → e.id ≡ event_id epoch r' o'
      → Before r o r' o'
      → Chain epoch r' o' es r'' o''
      → Chain epoch r o (e ∷ es) r'' o''

-- The id of the event number `n`, or what stood before the first.
abbrev pub mark : Text → List StoredEvent → ℕ → Text
mark base log zero = base
mark base [] (suc n) = base
mark base (e ∷ es) (suc n) = mark e.id es n

-- How many events of a log the ring no longer holds.
abbrev pub evicted_count : List StoredEvent → ℕ
evicted_count log = length log - event_ring_capacity

-- The snapshot holds the last hundred events of the log, and says which was the last evicted.
pub record RefinesLog (s : StoreSnapshot) (log : List StoredEvent) : Type 0 where
  pub epoch_ok : IsEpoch s.stream_epoch
  pub top_revision : ℕ
  pub top_ordinal : ℕ
  pub chain : Chain s.stream_epoch 0 0 log top_revision top_ordinal
  pub cursor : s.stream_cursor ≡ event_id s.stream_epoch top_revision top_ordinal
  pub ring : s.events ≡ drop (evicted_count log) log
  pub evicted :
      s.stream_evicted_through ≡ mark (baseline_cursor s.stream_epoch) log (evicted_count log)
  pub below : top_revision ≤ s.store_revision

Chain-append :
    {epoch : Text} {r o r' o' r'' o'' : ℕ} {es fs : List StoredEvent}
    → Chain epoch r o es r' o'
    → Chain epoch r' o' fs r'' o''
    → Chain epoch r o (es ++ fs) r'' o''
Chain-append done d = d
Chain-append (next e b c) d = next e b (Chain-append c d)

Chain-stored_later :
    (s : StoreSnapshot) (at : Stamp) (o n : ℕ) (drafts : List DraftEvent)
    → o < n
    → (m : ℕ) × Chain s.stream_epoch s.store_revision o
        (stored_from s at n drafts)
        s.store_revision
        m
unfolding stored_from
Chain-stored_later s at o n [] h = (o, done)
Chain-stored_later s at o n (d ∷ ds) h =
    let (m, c) = Chain-stored_later s at n (suc n) ds (omega arith) in
    (m, next refl (inr (refl, h)) c)

-- The events of one commit, after a position of an earlier revision.
Chain-stored :
    (s : StoreSnapshot) (at : Stamp) (r o : ℕ) (d : DraftEvent) (ds : List DraftEvent)
    → r < s.store_revision
    → (m : ℕ) × Chain s.stream_epoch r o (stored_from s at 1 (d ∷ ds)) s.store_revision m
unfolding stored_from
Chain-stored s at r o d ds h =
    let (m, c) = Chain-stored_later s at 1 2 ds (omega arith) in (m, next refl (inl h) c)

last_id-Chain :
    {epoch : Text} {r o r' o' : ℕ} {es : List StoredEvent}
    → Chain epoch r o es r' o'
    → last_id (event_id epoch r o) es ≡ event_id epoch r' o'
unfolding last_id
last_id-Chain done = refl
last_id-Chain (next e b c) = rw e (last_id-Chain c)

last_id-take :
    (base : Text) (n : ℕ) (es : List StoredEvent) → last_id base (take n es) ≡ mark base es n
unfolding last_id
last_id-take base zero es = refl
last_id-take base (suc n) [] = refl
last_id-take base (suc n) (e ∷ es) = last_id-take e.id n es

mark-nil : (base : Text) (n : ℕ) → mark base [] n ≡ base
mark-nil base zero = refl
mark-nil base (suc n) = refl

pub mark-drop :
    (base : Text) (k m : ℕ) (es : List StoredEvent)
    → mark (mark base es k) (drop k es) m ≡ mark base es (k + m)
mark-drop base zero m es = ap (mark base es) (omega arith)
mark-drop base (suc k) m [] = mark-nil base m ∙ sym (mark-nil base (suc k + m))
mark-drop base (suc k) m (e ∷ es) = rw suc-add (mark-drop e.id k m es)

drop-append :
    (k : ℕ) (es fs : List StoredEvent) → k ≤ length es → drop k (es ++ fs) ≡ drop k es ++ fs
drop-append zero es fs h = refl
drop-append (suc k) [] fs h = absurd (omega arith)
drop-append (suc k) (e ∷ es) fs h = drop-append k es fs (omega arith)

mark-append :
    (base : Text) (k : ℕ) (es fs : List StoredEvent)
    → k ≤ length es
    → mark base (es ++ fs) k ≡ mark base es k
mark-append base zero es fs h = refl
mark-append base (suc k) [] fs h = absurd (omega arith)
mark-append base (suc k) (e ∷ es) fs h = mark-append e.id k es fs (omega arith)

-- The surplus of the ring and new events, over what the ring had dropped before, is what the ring
-- drops of the whole log.
surplus_lem :
    (log fs : List StoredEvent)
    → evicted_count log + (length (drop (evicted_count log) (log ++ fs)) - event_ring_capacity)
      ≡ evicted_count (log ++ fs)
surplus_lem log fs =
    omega (arith, length-drop (evicted_count log) (log ++ fs), length-append log fs)

module _ (s : StoreSnapshot) (log : List StoredEvent) (h : RefinesLog s log)
    (stored : List StoredEvent) where
  ring-append : s.events ++ stored ≡ drop (evicted_count log) (log ++ stored)
  ring-append = rw h.ring (sym (drop-append (evicted_count log) log stored (omega arith)))

  keep_last-ring :
      (keep_last s stored).events ≡ drop (evicted_count (log ++ stored)) (log ++ stored)
  unfolding keep_last
  keep_last-ring = rw (ring-append, drop-drop, surplus_lem log stored)

  keep_last-evicted :
      (keep_last s stored).stream_evicted_through
      ≡ mark (baseline_cursor s.stream_epoch) (log ++ stored) (evicted_count (log ++ stored))
  unfolding keep_last
  keep_last-evicted =
      let base = baseline_cursor s.stream_epoch in
      let k = evicted_count log in
      rw (
        ring-append,
        last_id-take,
        h.evicted,
        ← mark-append base k log stored (omega arith),
        mark-drop,
        surplus_lem log stored,
      )

-- Appending the events of a commit at a revision above the log's keeps the refinement, with the
-- log longer by just those events.
pub append_events-RefinesLog :
    (now : DateTime) (s : StoreSnapshot) (drafts : List DraftEvent) (log : List StoredEvent)
    (h : RefinesLog s log)
    → h.top_revision < s.store_revision
    → RefinesLog (append_events now s drafts).0 (log ++ (append_events now s drafts).1)
unfolding append_events
append_events-RefinesLog now s [] log h lt = rw append-nil h
append_events-RefinesLog now s (d ∷ ds) log h lt =
    let stored = stored_from s (format_instant now) 1 (d ∷ ds) in
    let (m, c) = Chain-stored s (format_instant now) h.top_revision h.top_ordinal d ds lt in
    unfold keep_last in
    record {
      epoch_ok = h.epoch_ok;
      top_revision = s.store_revision;
      top_ordinal = m;
      chain = Chain-append h.chain c;
      cursor = ap (λ t. last_id t stored) h.cursor ∙ last_id-Chain c;
      ring = keep_last-ring s log h stored;
      evicted = keep_last-evicted s log h stored;
      below = omega arith;
    }
