-- ===== src/Db/Store/Atomic.antt =====
-- What `commit` of app/db/store.py leaves of the live snapshot and the file.
use kxinspect_backend.Base.{◌+◌, ◌≡◌, ◌⊎◌, refl, inl, inr, some, List, [], ◌∷◌, Bool-cases}
use kxinspect_backend.Core.Clock.{DateTime}
use kxinspect_backend.Core.Errors.{Fault, api, store_unavailable, Result, ok, raise}
use kxinspect_backend.Db.Models.{StoreSnapshot}
use kxinspect_backend.Db.Store.{
  keep_last, DraftEvent, MutationOutcome, append_events, persist, Store, WriteOutcome, written,
  failed_before_replace, failed_after_replace, CommitRun, Mutator, commit, commit_lem,
  after_persist, after_mutator,
}

pub append_events-revision :
    (now : DateTime) (s : StoreSnapshot) (drafts : List DraftEvent)
    → (append_events now s drafts).0.store_revision ≡ s.store_revision
unfolding append_events keep_last
append_events-revision now s [] = refl
append_events-revision now s (d ∷ ds) = refl

module _ {T : Type 0} where
  -- Nothing happened: the store is as before, and nothing was published.
  pub record Untouched (before : Store) (run : CommitRun T) : Type 0 where
    pub store : run.store ≡ before
    pub published : run.published ≡ []

  -- A new snapshot, one revision on, is both live and on disk.
  pub record Committed (current : StoreSnapshot) (run : CommitRun T) : Type 0 where
    pub new : StoreSnapshot
    pub live : run.store.snapshot ≡ some new
    pub durable : run.store.disk ≡ some new
    pub next_revision : new.store_revision ≡ current.store_revision + 1

  -- The call raised, the live snapshot stayed, and the file holds the next revision all the same.
  pub record AheadOnDisk (current : StoreSnapshot) (run : CommitRun T) : Type 0 where
    pub new : StoreSnapshot
    pub live : run.store.snapshot ≡ some current
    pub file : run.store.disk ≡ some new
    pub next_revision : new.store_revision ≡ current.store_revision + 1
    pub raised : run.result ≡ raise (api store_unavailable)
    pub published : run.published ≡ []

  -- What a run can come to. A file ahead of the memory needs a failure after the replacement.
  abbrev pub AllOrNothing : WriteOutcome → Store → StoreSnapshot → CommitRun T → Type 0
  AllOrNothing write store current run =
      Untouched store run
      ⊎ Committed current run
      ⊎ ((write ≡ failed_after_replace) × AheadOnDisk current run)

  module _ (now : DateTime) (store : Store) (current : StoreSnapshot)
      (live : store.snapshot ≡ some current) where
    after_persist-AllOrNothing :
        (write : WriteOutcome) (outcome : MutationOutcome T) (mutated : StoreSnapshot)
        → let bumped = record mutated { store_revision = current.store_revision + 1 } in
          let appended = append_events now bumped outcome.events in
          AllOrNothing write store current (
            after_persist store outcome appended.0 appended.1 (persist write appended.0 store.disk))
    unfolding persist
    after_persist-AllOrNothing written outcome mutated = inr (
        inl (record {
          new = _;
          live = refl;
          durable = refl;
          next_revision = append_events-revision now _ outcome.events;
        }))
    after_persist-AllOrNothing failed_before_replace outcome mutated =
        inl (record { store = refl; published = refl })
    after_persist-AllOrNothing failed_after_replace outcome mutated = inr (
        inr (
          refl,
          record {
            new = _;
            live = live;
            file = refl;
            next_revision = append_events-revision now _ outcome.events;
            raised = refl;
            published = refl;
          },
        ))

    after_mutator-AllOrNothing :
        (write : WriteOutcome) (r : Result (MutationOutcome T × StoreSnapshot))
        → AllOrNothing write store current (after_mutator now write store current r)
    after_mutator-AllOrNothing write (raise e) = inl (record { store = refl; published = refl })
    after_mutator-AllOrNothing write (ok (outcome, mutated)) = elim (Bool-cases outcome.persist) [
      | inl p ↦ rw p (after_persist-AllOrNothing write outcome mutated)
      | inr p ↦ rw p (inl (record { store = refl; published = refl }))
    ]

-- A commit on an open store changes nothing and publishes nothing, or makes one new snapshot, at
-- the next revision, both live and durable. There is one exception: when the disk fails after the
-- file was replaced, the caller gets `store.unavailable` and the live snapshot is the old one, but
-- the file is at the next revision.
pub commit-AllOrNothing :
    {T : Type 0} (now : DateTime) (write : WriteOutcome) (m : Mutator T) (store : Store)
    (current : StoreSnapshot)
    → store.snapshot ≡ some current
    → AllOrNothing write store current (commit now write m store)
commit-AllOrNothing now write m store current live =
    rw (commit_lem now write m store current live)
      (after_mutator-AllOrNothing now store current live write (m current))

-- A mutator that raises has no effect: the caller gets its fault, and the store is as it was.
pub commit_raise :
    {T : Type 0} (now : DateTime) (write : WriteOutcome) (m : Mutator T) (store : Store)
    (current : StoreSnapshot) (f : Fault)
    → store.snapshot ≡ some current
    → m current ≡ raise f
    → ((commit now write m store).result ≡ raise f)
      × ((commit now write m store).store ≡ store)
      × ((commit now write m store).published ≡ [])
commit_raise now write m store current f live h =
    rw (commit_lem now write m store current live, h) (refl, refl, refl)
