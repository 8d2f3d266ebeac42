-- ===== src/Db/Store/Publish.antt =====
-- `commit` against the log of all events: what it publishes is what the log grows by.
use mathlib.Core.List.{append-nil}
use kxinspect_backend.Base.{◌+◌, ◌≤◌, ◌≡◌, refl, inl, inr, some, List, [], ◌++◌, arith, Bool-cases}
use kxinspect_backend.Core.Clock.{DateTime}
use kxinspect_backend.Core.Errors.{Result, ok, raise}
use kxinspect_backend.Db.Models.{StoredEvent, StoreSnapshot}
use kxinspect_backend.Db.Store.{
  after_persist, after_mutator, MutationOutcome, append_events, persist, Store, WriteOutcome,
  written, failed_before_replace, failed_after_replace, CommitRun, Mutator, commit, commit_lem,
}
use kxinspect_backend.Db.Store.Ring.{RefinesLog, append_events-RefinesLog}

-- The stream's part of two snapshots is the same.
pub record SameStream (a b : StoreSnapshot) : Type 0 where
  pub epoch : b.stream_epoch ≡ a.stream_epoch
  pub cursor : b.stream_cursor ≡ a.stream_cursor
  pub evicted : b.stream_evicted_through ≡ a.stream_evicted_through
  pub events : b.events ≡ a.events

-- A mutator leaves the stream's part of the working copy alone.
pub record KeepsStream {T : Type 0} (m : Mutator T) : Type 0 where
  pub at :
      (s : StoreSnapshot) (o : MutationOutcome T) (s' : StoreSnapshot)
      → m s ≡ ok (o, s')
      → SameStream s s'

RefinesLog-bumped :
    (a b : StoreSnapshot) (log : List StoredEvent)
    → SameStream a b
    → RefinesLog a log
    → (h : RefinesLog (record b { store_revision = a.store_revision + 1 }) log) × (h.top_revision
        ≤ a.store_revision)
RefinesLog-bumped a b log same h = (
  record {
    epoch_ok = rw same.epoch h.epoch_ok;
    top_revision = h.top_revision;
    top_ordinal = h.top_ordinal;
    chain = rw same.epoch h.chain;
    cursor = rw (same.epoch, same.cursor) h.cursor;
    ring = rw same.events h.ring;
    evicted = rw (same.epoch, same.evicted) h.evicted;
    below = omega arith;
  },
  h.below,
)

unchanged :
    (s : Store) (current : StoreSnapshot) (log : List StoredEvent)
    → s.snapshot ≡ some current
    → RefinesLog current log
    → (s' : StoreSnapshot) × (s.snapshot ≡ some s') × RefinesLog s' (log ++ [])
unchanged s current log e h = (current, e, rw append-nil h)

module _ {T : Type 0} (now : DateTime) (store : Store) (current : StoreSnapshot) where
  -- The snapshot of a run, and the log that it refines.
  abbrev Refined : List StoredEvent → CommitRun T → Type 0
  Refined log run =
      (s : StoreSnapshot) × (run.store.snapshot ≡ some s) × RefinesLog s (log ++ run.published)

  module _ (log : List StoredEvent) (is_current : store.snapshot ≡ some current)
      (h : RefinesLog current log) where
    after_persist-Refined :
        (write : WriteOutcome) (outcome : MutationOutcome T) (mutated : StoreSnapshot)
        → SameStream current mutated
        → let bumped = record mutated { store_revision = current.store_revision + 1 } in
          let appended = append_events now bumped outcome.events in
          Refined log (
            after_persist store outcome appended.0 appended.1 (persist write appended.0 store.disk))
    unfolding persist
    after_persist-Refined written outcome mutated same =
        let (b, lt) = RefinesLog-bumped current mutated log same h in
        (_, refl, append_events-RefinesLog now _ outcome.events log b (omega arith))
    after_persist-Refined failed_before_replace outcome mutated same =
        unchanged store current log is_current h
    after_persist-Refined failed_after_replace outcome mutated same =
        unchanged store current log is_current h

    after_mutator-Refined :
        (write : WriteOutcome) (r : Result (MutationOutcome T × StoreSnapshot))
        → ((o : MutationOutcome T) (s : StoreSnapshot) → r ≡ ok (o, s) → SameStream current s)
        → Refined log (after_mutator now write store current r)
    after_mutator-Refined write (raise e) keeps = unchanged store current log is_current h
    after_mutator-Refined write (ok (outcome, mutated)) keeps = elim (Bool-cases outcome.persist) [
      | inl p ↦ rw p (after_persist-Refined write outcome mutated (keeps outcome mutated refl))
      | inr p ↦ rw p (unchanged store current log is_current h)
    ]

-- If a mutator leaves the stream of the working copy alone, then whatever else it does, and whatever
-- the disk does, the live snapshot after `commit` refines the log that the snapshot before it
-- refines, followed by exactly the events that were published.
pub commit-RefinesLog :
    {T : Type 0} (now : DateTime) (write : WriteOutcome) (m : Mutator T) (store : Store)
    (current : StoreSnapshot) (log : List StoredEvent)
    → store.snapshot ≡ some current
    → KeepsStream m
    → RefinesLog current log
    → (s : StoreSnapshot) × ((commit now write m store).store.snapshot ≡ some s)
      × RefinesLog s (log ++ (commit now write m store).published)
commit-RefinesLog now write m store current log e keeps h =
    rw (commit_lem now write m store current e)
      (after_mutator-Refined now store current log e h write (m current) (keeps.at current))
