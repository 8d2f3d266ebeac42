-- ===== src/Lib.antt =====
-- kxinspect-backend: the state machine, store, event stream and charge service of the demo backend.
--
-- The program keeps one JSON snapshot. A charge goes from outstanding to accepted or contested, and
-- on to paid or resolved (app/domain/charge_state.py); a charge whose deadline has passed is accepted
-- by the system before charges are read or commanded. Commands run as mutators inside the store's
-- `commit` (app/db/store.py), which writes the whole snapshot, replaces it in memory, and hands the
-- new events to the broker (app/services/event_bus.py), from which clients read a stream that they
-- can resume by a cursor.
--
-- Core/Clock, Core/Errors, Core/Chaos, Core/Graphemes: app/core/clock.py, errors.py, chaos.py and
--   graphemes.py, function by function under the same names.
-- Domain/ChargeState, Domain/Deadline, Domain/CostBreakdown, Domain/Namespace: the modules of
--   app/domain.
-- Db/Text, Db/Cursor, Db/Entities, Db/Models: app/db/models.py and the stored shapes of app/schemas.
--   A text that is taken apart is a list of code points, other texts are strings.
-- Core/CanonicalJson, Core/Idempotency, Core/Settings: canonical_json.py, idempotency.py and the
--   validators of config.py. A JSON value is a tree, whose objects list their members in the order in
--   which the dictionary holds them; CanonicalJson/Sorting is the order of the keys.
-- Db/Uploads: the directory of uploads as its entries, `_referenced_attachment_ids`,
--   `_resolve_attachment` and the cleanup of app/db/store.py. What `glob` tests is a parameter.
-- Db/Store: `JsonStore`. A mutator takes the working copy and returns the changed one; what the disk
--   does to a write is an argument, and the file is part of the state beside the live snapshot.
--   Db/Store/Startup is `open`, Db/Store/Backfill the upgrade of an older state, Db/Store/Reset the
--   reset with what it does to the uploads, Db/Barrier the operation barrier.
-- Services/EventBus: `EventBroker`, `replayable_events` and the loop of `_stream` in
--   app/api/v1/endpoints/events.py. Services/EventBus/Session has the interleavings as steps.
-- Services/ChargeService: app/services/charge_service.py. Ledger, Reconcile, Commands, Tasks and
--   Operator have the mutators, Reads the reads, Validation the bounds on texts, Requests runs of the
--   service as lists of its six committing calls, between resets: POST /api/v1/reset is Db/Store/Reset
--   and Api/Events.
-- Services/Attachments: the checks of app/services/attachment_service.py, and in Finalize the moves
--   and the rollback.
-- Services/Deadlines: `_schedule_next_deadline` of app/main.py, with each of its readings of the
--   clock.
-- Api/Deps, Api/Commands, Api/Reads, Api/Events, Api/Middleware: app/api/deps.py, the routes of
--   app/api/v1/endpoints/commands.py (Tasks and Contest are child modules) and reads.py,
--   `event_stream` with app/services/demo_reset.py, and the middleware and exception handlers of
--   app/main.py. What other tasks do while a reset waits for its lease is a list of actions. A route is
--   a function of the decoded request, and what it calls of other libraries is the record `Platform`.
-- Api/Download: `download_attachment` of app/api/v1/endpoints/attachments.py.
-- Base: shared names, tests and lemmas. Tests: concrete inputs.
--
-- Bounds: the printing of a number has one round of fuel more than the number, which is enough for
-- its digits, as the round trip of cursors shows; the reader of a stream is run for a number of
-- rounds, of which one more than the queue is long is enough to end a closed stream; the deadline loop
-- has one round more than there are outstanding charges, of which every wake accepts one at least.
-- The event ring holds a hundred events, as in the source.
--
-- The store's lock makes each commit one step, so the interleavings of requests are lists.
-- The deadline loop runs without other requests in between and with writes that succeed. Not
-- modelled: the parsers of HTTP, JSON and multipart bodies, CORS, logging and the lifespan of the
-- application, the file locks and permissions, the files of the staging directory and the scripts.
-- Outside the library's reach, and so arguments, are the Unicode tables and normalisation, IDNA,
-- `urlsplit`, SHA-256, UUIDs, `glob`, fresh identifiers, the scheduler's delay and the clock.
pub mod Base
pub mod Core
pub mod Domain
pub mod Db
pub mod Services
pub mod Api
pub mod Tests
