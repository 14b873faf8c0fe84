-- ===== src/Lib.antt =====
-- Sozan2, a workspace for tutors: lessons, packages of lessons, receipts and their allocation, and
-- the synchronisation of a workspace between devices and the cloud.
--
-- The parts modelled, with the paths from the root of the repository:
--   * Billing.Package: src/modules/tutoring/domain/billing.ts, the share of a package price that one
--     lesson earns (`packageUnitShare`), the progress of a package (`packageProgress`) and the guard
--     of its opening progress (`canChangeOpeningProgress`).
--   * Billing.Repository, Billing.Plan and Billing.Service:
--     src/server/adapters/d1/tutoring-billing.repository.ts, src/modules/tutoring/domain/billing-plan.ts
--     and src/modules/tutoring/services/billing.service.ts, the plans, cycles and linked lessons with
--     each query read from its SQL, and the service that configures a student's plan (`configure`)
--     and books completed lessons (`recordCompletedOccurrence`).
--   * Tutoring.Session: src/modules/tutoring/domain/session.ts and student-lifecycle.ts, who is billed
--     for a lesson and what the archiving of a student does to a session.
--   * Tutoring.Schedule: src/modules/tutoring/domain/schedule-conflict.ts, the minutes that a session
--     occupies and the test for a conflict.
--   * Tutoring.Family: src/modules/tutoring/domain/billing-account.ts, whose lessons a package of a family
--     counts and when it is complete.
--   * Finance.Contracts and Finance.Gateway: src/modules/finance/contracts.ts and
--     src/server/adapters/d1/finance.gateway.ts, the tables of receipts and allocations with each
--     query read from its SQL (`recordReceipt`, `allocateReceipt`, the two totals).
--   * Finance.Allocation: src/modules/finance/allocation.service.ts, the whole of `collect`, which
--     calls the gateway. The obligation providers are parameters.
--   * Sync.Revision: src/server/sync/workspace-revision.ts, the revision of a workspace and the lease
--     of its writer, whose clients guard their reads by `withStableWorkspaceRead` and their writes by
--     `withWorkspaceWrite`.
--   * Sync.Push: the push route of src/server/sync/routes.ts with contracts.ts and revision-policy.ts
--     beside it: idempotency keys, the loop over the mutations under the lease, and the answers. The
--     handlers of the domains and the hooks are parameters.
--   * Sync.Outbox and Sync.Engine: src/client/sync/outbox.ts and engine.ts, the mutations that wait
--     on a device and one run that pushes them and pulls a snapshot, its transactions run one by one
--     between the changes of others. The server and the replacement of the tables by a snapshot are
--     parameters; the results are those of Sync.Push.
--   * Sync.Operation: src/client/sync/workspace-operation.ts, the lock that lets one operation at a time
--     run on a workspace of a device; a run of Sync.Engine is under it.
--   * Platform: src/platform/modules/types.ts (the validation of the graph of modules),
--     src/platform/surfaces/layout.ts (the widgets of a surface) and src/platform/events/event-bus.ts
--     (subscribing and unsubscribing, with the sets of handlers in a store).
--   * Auth.RateLimit: src/server/auth/rate-limit.ts, the limit on attempts to log in.
--   * Auth.Security, Auth.Accounts, Auth.Service and Auth.Guard: src/platform/auth/security.ts and
--     contracts.ts, src/server/adapters/d1/auth.repository.ts, src/platform/auth/service.ts and
--     src/server/auth/guard.ts: the hashes of passwords and tokens, the tables of accounts and sessions
--     with each statement read from its SQL, the five requests (`register`, `login`, `authenticate`,
--     `logout`, `recover`), and the access of a request to a workspace (`requireWorkspaceAccess`).
--   * Reconcile: src/server/integrations/financial-reconcile.ts, which collects the receipts of a student
--     again and derives the state of each package from its lessons and allocations; it calls
--     Finance.Allocation on the tables of finance and works on the tables of Billing.Repository.
--     Reconcile.Students has the obligations of a student (tutoring-obligations.provider.ts) and the
--     hook (financial-reconcile.sync-hook.ts) that Sync.Push runs after a mutation.
-- Common holds what they share: the error messages and results, the monad of state and errors, a
-- JavaScript number (whole, negative, or neither), sorting, and a world in which others change the
-- state between two statements. A file below a part proves what its name says; Tests hold runs and
-- the theorems at concrete inputs.
--
-- How code becomes definitions: a function that throws returns a `Result`, whose errors are the
-- messages of the source; a method that uses the database is a function of its tables. A table is
-- the list of its rows. A method of the gateway runs without interference; the statements of the
-- revision, of the billing service and of a run of the engine are run one by one, and between two of them the world applies the
-- next of a list of changes by others, which the theorems quantify over. Common.Interleave.Triples has
-- the rules by which a predicate on the tables is followed through the statements of a method.
--
-- Parameters and assumptions: the order of texts (`localeCompare`) is any total preorder; the maker
-- of identifiers is any function of a counter, and outside the tables of the packages and of the
-- accounts a clash of a new identifier with a primary key is not modelled. Amounts are exact, as in
-- the source while the product of a price and a position stays below 2^53; the amount of an allocation is
-- a natural number, so that its test for a safe integer is left out, and its upper end with it. Times of
-- a lease are seconds, the minutes of a session whole numbers. In the statement on snapshots the
-- others keep to the protocol of the routes: they write only while they hold the lease and abort only
-- when nothing was written. The statements on a push are for a server that nobody else writes to, and
-- a handler works on the data as one step.
--
-- The others of a booking or a configuration keep the tables valid, the price and the size of every
-- cycle, and the lessons that are completed; the tables have the unique keys and the checks that an
-- INSERT meets, and no foreign keys. The token of an operation is any function of a counter.
-- The others of a run of the engine are any changes of the stores of the device, since its commands
-- take no lock of the workspace; what a statement asks of them stands among its conditions.
--
-- The host of the authentication (base64, PBKDF2, SHA-256, the regular expressions, the case of texts,
-- the random values as functions of the number of the draw) is any record of functions: nothing is
-- assumed of a hash or of the freshness of a random value, since a clash of identifiers or of hashes
-- makes an INSERT fail. The decoding of base64 is total, while the source may throw on a stored text
-- that is none. A request runs alone, between requests the clock moves in any way.
--
-- A reconciliation runs alone; the order of texts in the database is any test of "before", and the list of
-- the students of a workspace is a parameter.
--
-- Bounds: the attempts of a stable read and the four attempts of a booking are the numbers of the
-- source, on which the recursion goes down. The walk over the modules may call itself once more than
-- there are modules, which is enough since a module is never entered twice on one path. The wait for
-- a free workspace has one turn for each 100 milliseconds of the time allowed and two more, which is
-- enough since a turn sleeps that long. No other recursion needs fuel.
--
-- Not modelled: the screens, the calls of IndexedDB and of the web platform, the cookies, the
-- SQL schema beyond what the queries rely on, and the parts of the source that no file here names.
pub mod Common
pub mod Billing
pub mod Finance
pub mod Sync
pub mod Tutoring
pub mod Platform
pub mod Auth
pub mod Reconcile
