-- ===== src/Api/Commands/Contest/Kept.antt =====
-- The commit of a contest of app/api/v1/endpoints/commands.py: the files that the live state refers
-- to, and those that are there.
use kxinspect_backend.Base.{
  ◌+◌, ◌≡◌, refl, sym, ap, ◌∙◌, Bool, false, some, List, [], ◌∷◌, All, arith, ◌⊎◌, inl, inr,
}
use kxinspect_backend.Core.Errors.{Fault, Result, ok, raise}
use kxinspect_backend.Domain.ChargeState.{contest}
use kxinspect_backend.Db.Text.{Text}
use kxinspect_backend.Db.Entities.{Charge}
use kxinspect_backend.Db.Models.{IdempotencyRecord, StoreSnapshot}
use kxinspect_backend.Db.Store.{
  DraftEvent, MutationOutcome, Store, WriteOutcome, written, failed_before_replace,
  failed_after_replace, persist, append_events, CommitRun, commit_lem, after_mutator,
}
use kxinspect_backend.Db.Store.Lookup.{find_entity_lem}
use kxinspect_backend.Db.Uploads.{
  Entry, Directory, attachment_ids, is_missing, resolve_attachment, referenced_attachment_ids,
}
use kxinspect_backend.Db.Uploads.Cleanup.{In}
use kxinspect_backend.Db.Uploads.Found.{resolve_attachment-missing}
use kxinspect_backend.Services.Attachments.Finalize.{
  FinalizedAttachment, place_all, rollback, as_json_all,
}
use kxinspect_backend.Services.Attachments.Finalize.Undo.{AreFresh, rollback-place_all}
use kxinspect_backend.Services.Attachments.Finalize.Placed.{
  IsAddressed, has_match-place_all, attachment_ids-placed,
}
use kxinspect_backend.Services.ChargeService.Ledger.{
  CommandResult, replayed_outcome, fail_after_reconciliation,
}
use kxinspect_backend.Services.ChargeService.Commands.{
  ChargeCommand, next_charge, success_events, success_outcome, success_snapshot, charge_mutator,
}
use kxinspect_backend.Services.ChargeService.Commands.Cases.{
  settled_snapshot, settled_events, CommandCase, replayed, mismatched, wrong_epoch, refused,
  succeeded, charge_mutator_case,
}
use kxinspect_backend.Services.ChargeService.Commands.Success.{append_events-entities, replay_found}
use kxinspect_backend.Services.ChargeService.Requests.{Moment}
use kxinspect_backend.Api.Deps.{Platform}
use kxinspect_backend.Api.Commands.Contest.{
  with_attachments, calls_finalize, finalize_called, uploads_after, commit_contest,
}
use kxinspect_backend.Api.Commands.Contest.References.{referenced-reconcile, referenced-contest}

module _ (fnmatch : Text → Text → Bool) (static : Directory) where
  -- Every id that a state refers to finds a file.
  abbrev pub IsServed : List Entry → StoreSnapshot → Type 0
  IsServed uploads s =
      (i : Text)
      → In i (referenced_attachment_ids s.entities)
      → is_missing (resolve_attachment fnmatch (some uploads) static i) ≡ false

  IsServed-entities :
      (uploads : List Entry) (s t : StoreSnapshot)
      → referenced_attachment_ids t.entities ≡ referenced_attachment_ids s.entities
      → IsServed uploads s
      → IsServed uploads t
  IsServed-entities uploads s t e h i listed = h i (rw e at listed)

  IsServed-place_all :
      (fs : List FinalizedAttachment) (uploads : List Entry) (s : StoreSnapshot)
      → IsServed uploads s
      → IsServed (place_all fs uploads) s
  IsServed-place_all fs uploads s h i listed =
      let before = h i listed in
      ground (
        arith,
        resolve_attachment-missing fnmatch (some uploads) static i,
        resolve_attachment-missing fnmatch (some (place_all fs uploads)) static i,
        has_match-place_all fnmatch i fs uploads,
      )

module _ (p : Platform) (static : Directory) (m : Moment) (cmd : ChargeCommand)
    (fs : List FinalizedAttachment) (store : Store) (s : StoreSnapshot) (uploads : List Entry) where
  abbrev Answer : Type 0
  Answer = Result (MutationOutcome CommandResult × StoreSnapshot)

  abbrev run_on : WriteOutcome → Answer → CommitRun CommandResult
  run_on write r = after_mutator m.commit_at write store s r

  abbrev uploads_on : WriteOutcome → Answer → List Entry
  uploads_on write r = uploads_after p (calls_finalize r) (run_on write r).result fs uploads

  -- The live snapshot of a run, if there is one, is served by the uploads that the run leaves.
  abbrev Holds : WriteOutcome → Answer → Type 0
  Holds write r =
      (t : StoreSnapshot)
      → (run_on write r).store.snapshot ≡ some t
      → IsServed p.fnmatch static (uploads_on write r) t

  module _ (live : store.snapshot ≡ some s) (before : IsServed p.fnmatch static uploads s) where
    same_live : (t : StoreSnapshot) → store.snapshot ≡ some t → IsServed p.fnmatch static uploads t
    same_live t h = let same : s ≡ t = cc in rw same at before

    raised-Holds : (write : WriteOutcome) (f : Fault) → Holds write (raise f)
    raised-Holds write f t h = same_live t h

    refused-Holds :
        (write : WriteOutcome) (events : List DraftEvent) (f : Fault)
        → Holds write (fail_after_reconciliation events f (settled_snapshot m.now s))
    unfolding fail_after_reconciliation persist
    refused-Holds write [] f t h = same_live t h
    refused-Holds failed_before_replace (e ∷ es) f t h = same_live t h
    refused-Holds failed_after_replace (e ∷ es) f t h = same_live t h
    refused-Holds written (e ∷ es) f t h =
        let settled = settled_snapshot m.now s in
        let bumped = record settled { store_revision = s.store_revision + 1 } in
        let new = append_events m.commit_at bumped (e ∷ es) in
        let same : new.0 ≡ t = cc in
        let entities = append_events-entities m.commit_at bumped (e ∷ es) in
        IsServed-entities p.fnmatch static uploads s t
          (ap (λ (u : StoreSnapshot). referenced_attachment_ids u.entities) (sym same)
            ∙ ap referenced_attachment_ids entities
            ∙ referenced-reconcile m.now s)
          before

    replayed-Holds :
        (write : WriteOutcome) (found : IdempotencyRecord)
        → Holds write (ok (replayed_outcome s found, s))
    replayed-Holds write found t h = same_live t h

    rolled_back :
        AreFresh p.fnmatch fs uploads
        → (t : StoreSnapshot) → store.snapshot ≡ some t
        → IsServed p.fnmatch static (rollback p.fnmatch fs (place_all fs uploads)) t
    rolled_back fresh t h = rw (rollback-place_all p.fnmatch fs uploads fresh) (same_live t h)

    placed_served :
        (i : Text)
        → All (IsAddressed p.fnmatch) fs
        → In i (referenced_attachment_ids s.entities)
          ⊎ In i (attachment_ids (as_json_all p.string fs))
        → is_missing (resolve_attachment p.fnmatch (some (place_all fs uploads)) static i) ≡ false
    placed_served i addressed (inl old) =
        IsServed-place_all p.fnmatch static fs uploads s before i old
    placed_served i addressed (inr new) =
        let (accepted, found) =
          attachment_ids-placed p.fnmatch p.string fs uploads i addressed new in
        ground (arith, resolve_attachment-missing p.fnmatch (some (place_all fs uploads)) static i)

    succeeded-Holds :
        (write : WriteOutcome) (events : List DraftEvent) (c : Charge) (mutated : StoreSnapshot)
        → All (IsAddressed p.fnmatch) fs
        → AreFresh p.fnmatch fs uploads
        → ((x : Text)
            → In x (referenced_attachment_ids mutated.entities)
            → In x (referenced_attachment_ids s.entities)
              ⊎ In x (attachment_ids (as_json_all p.string fs)))
        → Holds write (ok (success_outcome events c, mutated))
    unfolding persist
    succeeded-Holds failed_before_replace events c mutated addressed fresh refs t h =
        rolled_back fresh t h
    succeeded-Holds failed_after_replace events c mutated addressed fresh refs t h =
        rolled_back fresh t h
    succeeded-Holds written events c mutated addressed fresh refs t h =
        let bumped = record mutated { store_revision = s.store_revision + 1 } in
        let drafts = success_events events c in
        let same : (append_events m.commit_at bumped drafts).0 ≡ t = cc in
        let entities =
          ap (λ (u : StoreSnapshot). referenced_attachment_ids u.entities) (sym same)
          ∙ ap referenced_attachment_ids (append_events-entities m.commit_at bumped drafts) in
        λ i listed. placed_served i addressed (refs i (rw entities at listed))

    case-Holds :
        (write : WriteOutcome)
        → All (IsAddressed p.fnmatch) fs
        → AreFresh p.fnmatch fs uploads
        → cmd.event ≡ contest
        → cmd.attachments ≡ as_json_all p.string fs
        → (r : Answer) → CommandCase m.now m.recorded_at cmd s r
        → Holds write r
    case-Holds write addressed fresh is_contest attached r (mismatched f _ e) =
        rw e (raised-Holds write f)
    case-Holds write addressed fresh is_contest attached r (wrong_epoch f _ _ e) =
        rw e (raised-Holds write f)
    case-Holds write addressed fresh is_contest attached r (refused f _ _ _ e) =
        rw e (refused-Holds write (settled_events m.now s) f)
    case-Holds write addressed fresh is_contest attached r (replayed outcome again e) =
        let (found, _, same) = replay_found s cmd.context outcome again in
        rw (e, same) (replayed-Holds write found)
    case-Holds write addressed fresh is_contest attached r
          (succeeded i c to origin _ _ lookup _ _ e) =
        let settled = settled_snapshot m.now s in
        let position =
          (find_entity_lem (λ (x : Charge). x.id) cmd.charge_id settled.entities.charges i c
            lookup).0 in
        rw e (
          succeeded-Holds write (settled_events m.now s) (next_charge m.now cmd to origin c)
            (success_snapshot m.recorded_at cmd settled (settled_events m.now s) i
              (next_charge m.now cmd to origin c))
            addressed fresh
            (λ x listed.
              elim (referenced-contest m.now m.recorded_at cmd settled (settled_events m.now s) i c
                to origin x is_contest position listed) [
                  | inl old ↦ inl (rw (referenced-reconcile m.now s) at old)
                  | inr new ↦ inr (rw attached at new)
                ]))

module _ (p : Platform) (static : Directory) (m : Moment) where
  -- Take a contest with attachments under fresh ids, at a state of which every referenced id finds a
  -- file. Whatever the command ends in (a replay, a refusal, a success) and whatever the disk does to
  -- the write, every id that the live state refers to afterwards finds a file among the uploads that
  -- the handler leaves.
  pub commit_contest-IsServed :
      (command : ChargeCommand) (fs : List FinalizedAttachment) (store : Store) (s : StoreSnapshot)
      (uploads : List Entry) (t : StoreSnapshot)
      → command.event ≡ contest
      → store.snapshot ≡ some s
      → All (IsAddressed p.fnmatch) fs
      → AreFresh p.fnmatch fs uploads
      → IsServed p.fnmatch static uploads s
      → (commit_contest p m command fs store uploads).run.store.snapshot ≡ some t
      → IsServed p.fnmatch static (commit_contest p m command fs store uploads).uploads t
  unfolding commit_contest
  commit_contest-IsServed command fs store s uploads t is_contest live addressed fresh before =
      let final = with_attachments p command fs in
      let mutator = charge_mutator m.now m.recorded_at final in
      let called : finalize_called m final store.snapshot ≡ calls_finalize (mutator s) =
        ap (finalize_called m final) live in
      rw (commit_lem m.commit_at m.disk mutator store s live, called)
        (case-Holds p static m final fs store s uploads live before m.disk addressed fresh
          is_contest refl (charge_mutator m.now m.recorded_at final s)
          (charge_mutator_case m.now m.recorded_at final s) t)
