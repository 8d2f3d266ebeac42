-- ===== src/Services/EventBus/Replay.antt =====
-- The replay of a reconnecting client against the log of its epoch.
use kxinspect_backend.Base.{
  drop-drop, ℕ, zero, suc, ◌+◌, ◌-◌, ◌≤◌, ◌<◌, ◌≡◌, ◌⊎◌, refl, sym, ap, ◌∙◌, inl, inr, Bool, true,
  false, some, List, [], ◌∷◌, ◌++◌, length, take, drop, ltb, if◌then◌else◌, filter_by, arith,
  take-append-drop, length-drop, Bool-cases,
}
use kxinspect_backend.Base.Int.{pos, ltb_pair}
use kxinspect_backend.Db.Text.{Text}
use kxinspect_backend.Db.Text.RoundTrip.{text_eq_refl}
use kxinspect_backend.Db.Cursor.{
  IsEpoch, event_id, parse_cursor-event_id, baseline_cursor, baseline_cursor_lem,
}
use kxinspect_backend.Db.Models.{StoredEvent, StoreSnapshot}
use kxinspect_backend.Db.Store.Ring.{
  Before, Chain, done, next, mark, evicted_count, RefinesLog, mark-drop,
}
use kxinspect_backend.Services.EventBus.{position, is_after, replayable_events}

-- The order of positions, reflexive.
abbrev UpTo : ℕ → ℕ → ℕ → ℕ → Type 0
UpTo r o r' o' = (r < r') ⊎ ((r ≡ r') × (o ≤ o'))

Chain-UpTo :
    {epoch : Text} {r o r' o' : ℕ} {es : List StoredEvent}
    → Chain epoch r o es r' o'
    → UpTo r o r' o'
Chain-UpTo done = omega arith
Chain-UpTo (next e b c) = omega (arith, Chain-UpTo c)

Chain-Before :
    {epoch : Text} {r o r' o' : ℕ} {es : List StoredEvent}
    → Chain epoch r o es r' o'
    → 0 < length es
    → Before r o r' o'
Chain-Before done h = absurd (omega arith)
Chain-Before (next e b c) h = omega (arith, Chain-UpTo c)

take_pos : (n : ℕ) (es : List StoredEvent) → 0 < n → 0 < length es → 0 < length (take n es)
take_pos zero es h k = absurd (omega arith)
take_pos (suc n) [] h k = absurd (omega arith)
take_pos (suc n) (e ∷ es) h k = omega arith

Before-test :
    {A : Type 0} (x y : A) (a b c d : ℕ)
    → Before a b c d
    → (if ltb_pair (pos a) (pos b) (pos c) (pos d) then x else y) ≡ x
Before-test x y a b c d h =
    let e : ltb_pair (pos a) (pos b) (pos c) (pos d) ≡ true = ground arith in rw e

upto_test :
    {A : Type 0} (x y : A) (a b c d : ℕ)
    → UpTo c d a b
    → (if ltb_pair (pos a) (pos b) (pos c) (pos d) then x else y) ≡ y
upto_test x y a b c d h =
    let e : ltb_pair (pos a) (pos b) (pos c) (pos d) ≡ false = ground arith in rw e

-- A chain cut after `k` events, at the position of the mark.
record Cut (epoch : Text) (r o : ℕ) (es : List StoredEvent) (r' o' k : ℕ) : Type 0 where
  revision : ℕ
  ordinal : ℕ
  front : Chain epoch r o (take k es) revision ordinal
  back : Chain epoch revision ordinal (drop k es) r' o'
  marked : mark (event_id epoch r o) es k ≡ event_id epoch revision ordinal

Cut-at :
    {epoch : Text} {r o r' o' : ℕ} (k : ℕ) {es : List StoredEvent}
    → Chain epoch r o es r' o'
    → Cut epoch r o es r' o' k
Cut-at zero {es} c = record { revision = _; ordinal = _; front = done; back = c; marked = refl }
Cut-at (suc k) done = record { revision = _; ordinal = _; front = done; back = done; marked = refl }
Cut-at (suc k) (next {es = es} e b c) =
    let cut = Cut-at k c in
    record {
      revision = cut.revision;
      ordinal = cut.ordinal;
      front = next e b cut.front;
      back = cut.back;
      marked = ap (λ t. mark t es k) e ∙ cut.marked;
    }

position_of :
    (epoch : Text) (e : StoredEvent) (r o : ℕ)
    → IsEpoch epoch
    → e.id ≡ event_id epoch r o
    → position e ≡ (pos r, pos o)
unfolding position
position_of epoch e r o h p = rw (p, parse_cursor-event_id epoch r o h)

module _ {epoch : Text} (h : IsEpoch epoch) (a b : ℕ) where
  keeps_later :
      {r o r' o' : ℕ} {es : List StoredEvent}
      → Chain epoch r o es r' o'
      → UpTo a b r o
      → filter_by (is_after (pos a) (pos b)) es ≡ es
  keeps_later done u = refl
  keeps_later (next {r' = r} {o' = o} {e = e} p q c) u =
      let later : UpTo a b r o = omega arith in
      let test : ltb_pair (pos a) (pos b) (pos r) (pos o) ≡ true = ground arith in
      rw (position_of epoch e r o h p, test, keeps_later c later)

  drops_earlier :
      {r o r' o' : ℕ} {es : List StoredEvent}
      → Chain epoch r o es r' o'
      → UpTo r' o' a b
      → filter_by (is_after (pos a) (pos b)) es ≡ []
  drops_earlier done u = refl
  drops_earlier (next {r' = r} {o' = o} {e = e} p q c) u =
      let test : ltb_pair (pos a) (pos b) (pos r) (pos o) ≡ false = ground (arith, Chain-UpTo c) in
      rw (position_of epoch e r o h p, test, drops_earlier c u)

filter_by-append {ℓ} :
    {A : Type ℓ} (keep : A → Bool) (xs ys : List A)
    → filter_by keep (xs ++ ys) ≡ filter_by keep xs ++ filter_by keep ys
filter_by-append keep [] ys = refl
filter_by-append keep (x ∷ xs) ys = ground (arith, filter_by-append keep xs ys)

Cut-twice :
    {epoch : Text} {r o r' o' : ℕ} {es : List StoredEvent} {k m : ℕ} (c : Cut epoch r o es r' o' k)
    (d : Cut epoch c.revision c.ordinal (drop k es) r' o' m)
    → mark (event_id epoch r o) es (k + m) ≡ event_id epoch d.revision d.ordinal
Cut-twice {es = es} {k = k} {m = m} c d =
    sym (mark-drop _ k m es) ∙ (ap (λ t. mark t (drop k es) m) c.marked ∙ d.marked)

-- The tests of a replay, at two cursors of the stream's epoch.
replay_at :
    (epoch : Text) (events : List StoredEvent) (cursor evicted : Text) (a b c d : ℕ)
    → IsEpoch epoch
    → cursor ≡ event_id epoch a b
    → evicted ≡ event_id epoch c d
    → replayable_events events epoch evicted (some cursor) ≡ (
        if ltb_pair (pos a) (pos b) (pos c) (pos d)
        then ([], false)
        else (filter_by (is_after (pos a) (pos b)) events, true))
unfolding replayable_events
replay_at epoch events cursor evicted a b c d h p q =
    rw (p, q, parse_cursor-event_id epoch a b h, parse_cursor-event_id epoch c d h, text_eq_refl)

module _ (s : StoreSnapshot) (log : List StoredEvent) (h : RefinesLog s log) (k : ℕ) where
  abbrev Replays : List StoredEvent × Bool → Type 0
  Replays answer =
      replayable_events s.events s.stream_epoch s.stream_evicted_through
        (some (mark (baseline_cursor s.stream_epoch) log k))
      ≡ answer

  -- A mark of the log, at the position of a cut.
  at_cut :
      (n a b : ℕ)
      → mark (event_id s.stream_epoch 0 0) log n ≡ event_id s.stream_epoch a b
      → mark (baseline_cursor s.stream_epoch) log n ≡ event_id s.stream_epoch a b
  at_cut n a b e = ap (λ t. mark t log n) (baseline_cursor_lem s.stream_epoch) ∙ e

  replay_unservable : k ≤ length log → k < evicted_count log → Replays ([], false)
  replay_unservable le lt =
      let gap : ℕ = evicted_count log - k in
      let c = Cut-at k h.chain in
      let d = Cut-at gap c.back in
      let same : k + gap ≡ evicted_count log = omega arith in
      let left : 0 < length (drop k log) = omega (arith, length-drop k log) in
      let before = Chain-Before d.front (take_pos gap (drop k log) (omega arith) left) in
      replay_at s.stream_epoch s.events _ _ c.revision c.ordinal d.revision d.ordinal h.epoch_ok
        (at_cut k _ _ c.marked)
        (h.evicted
          ∙ at_cut (evicted_count log) _ _
              (ap (mark (event_id s.stream_epoch 0 0) log) (sym same) ∙ Cut-twice c d))
      ∙ Before-test _ _ c.revision c.ordinal d.revision d.ordinal before

  replay_rest : evicted_count log ≤ k → Replays (drop k log, true)
  replay_rest le =
      let gap : ℕ = k - evicted_count log in
      let c = Cut-at (evicted_count log) h.chain in
      let d = Cut-at gap c.back in
      let same : evicted_count log + gap ≡ k = omega arith in
      let later = is_after (pos d.revision) (pos d.ordinal) in
      let kept : filter_by later s.events ≡ drop k log =
        ap (filter_by later) (h.ring ∙ sym (take-append-drop gap (drop (evicted_count log) log)))
        ∙ (filter_by-append later (take gap (drop (evicted_count log) log)) _
            ∙ (ap (λ xs. xs ++ filter_by later (drop gap (drop (evicted_count log) log)))
                  (drops_earlier h.epoch_ok d.revision d.ordinal d.front (omega arith))
                ∙ (keeps_later h.epoch_ok d.revision d.ordinal d.back (omega arith)
                    ∙ (drop-drop (evicted_count log) gap log ∙ ap (λ n. drop n log) same)))) in
      replay_at s.stream_epoch s.events _ _ d.revision d.ordinal c.revision c.ordinal h.epoch_ok
        (at_cut k _ _ (ap (mark (event_id s.stream_epoch 0 0) log) (sym same) ∙ Cut-twice c d))
        (h.evicted ∙ at_cut (evicted_count log) _ _ c.marked)
      ∙ (upto_test _ _ d.revision d.ordinal c.revision c.ordinal (Chain-UpTo d.front)
          ∙ ap (λ (xs : List StoredEvent). (xs, true)) kept)

-- If the snapshot refines the log of the stream's epoch: a client that has received the first `k`
-- events reconnects with the cursor of the last of them (the baseline cursor if there is none). If
-- one of the events that it lacks is no longer among the last hundred, the cursor cannot be served
-- and nothing is replayed; else it gets all the events that it lacks, in order, and no other.
pub resume_exact :
    (s : StoreSnapshot) (log : List StoredEvent) (k : ℕ)
    → RefinesLog s log
    → k ≤ length log
    → replayable_events s.events s.stream_epoch s.stream_evicted_through
        (some (mark (baseline_cursor s.stream_epoch) log k))
      ≡ (if ltb k (evicted_count log) then ([], false) else (drop k log, true))
resume_exact s log k h le = elim (Bool-cases (ltb k (evicted_count log))) [
  | inl e ↦ rw e (replay_unservable s log h k le (ground arith))
  | inr e ↦ rw e (replay_rest s log h k (ground arith))
]
