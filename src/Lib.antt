-- ===== src/Lib.antt =====
-- LiveRoute: the delivery and recovery core of the Go backend.
--
-- The backend keeps trips in PostgreSQL and lets one runtime (the planner) at a time compute on a
-- trip. A runtime holds a lease on the trip whose epoch fences older runtimes. A command is an
-- intent with an outbox row; a dispatcher claims the row and sends it to the runtime, a finalizer
-- writes the outcome back in the order of the trip's mutation sequence, and the dispatcher then
-- confirms to the runtime what is finalized. The runtime's advice is stored as proposals, of which
-- one per trip is pending.
--
-- Which file is about which part (paths from the repository's root):
--   Uuid          validCanonicalUUID of backend/internal/persistence/commands.go and canonicalUUID of
--                 backend/internal/dispatch/proposal_consumer.go; Uuid/Gateway is canonicalUUID of
--                 backend/internal/gateway/handler.go
--   Store         the rows of migrations/00001_canonical_trip_state.sql and
--                 migrations/00002_delivery_recovery.sql
--   Lease         LeaseStore: Acquire, Renew, Current, Release
--                 (backend/internal/persistence/leases.go)
--   Proposal      ProposalStore: LatestPendingPayload, Persist
--                 (backend/internal/persistence/proposals.go)
--   Terminal      CommandStore.FinalizeTerminal
--                 (backend/internal/persistence/command_finalization.go)
--   Decision      CommandStore.FinalizeProposalRejection and FinalizeStaleProposalDecision
--                 (backend/internal/persistence/proposal_decisions.go)
--   Confirm       CommandStore.ConfirmFinalizedMutations
--                 (backend/internal/persistence/finalization_confirmation.go)
--   Mirror        CanonicalStateStore.FinalizeCanonicalMirror
--                 (backend/internal/persistence/canonical_mirror.go)
--   Delivery      OutboxStore: ClaimDue, ReleaseForRetry, PauseInternal,
--                 PendingFinalizationConfirmations (Delivery/Pending), and RetryDelay
--                 (backend/internal/persistence/outbox.go)
--   Admission     TripCommandAdmission (backend/internal/gateway/trip_admission.go), as steps that a
--                 history interleaves
--   Hub           SubscriptionHub (backend/internal/gateway/subscription_hub.go)
--   Supervisor    RuntimeSupervisor (backend/internal/dispatch/runtime_supervisor.go): Supervisor is
--                 Activate and Deactivate, Supervisor/Commits the reservations and commits,
--                 Supervisor/Steps is Close and the histories
--   Accepted      CommandStore.FinalizeAcceptedMutation
--                 (backend/internal/persistence/accepted_mutations.go): Accepted/Mutation is the
--                 request and its validation, Accepted/Apply the statements for each kind
--   Telemetry     TelemetryDispatcher.Dispatch and TelemetryDisposition
--                 (backend/internal/dispatch/telemetry.go), on the supervisor, with other calls in
--                 between
--   Wire          the messages of proto/liveroute/v1/planner.proto, as far as the dispatchers use them
--   Dispatch      Dispatcher.RunOnce (backend/internal/dispatch/dispatcher.go): Dispatch/Requests is
--                 what the dispatcher is given and its tests, Dispatch/Finalizer the RuntimeFinalizer
--                 (backend/internal/dispatch/runtime_finalizer.go). The stores, the planner and the
--                 clock are a record of interfaces over any state, as in the code;
--                 Dispatch/Database fills it with the stores above, as
--                 backend/cmd/liveroute-backend/main.go does, with FinalizeProposalAcceptance
--                 as a parameter
--   Intake        CommandStore.RecordRuntimeFirst (backend/internal/persistence/commands.go)
--   Convergence   CanonicalStateStore.ResolveCanonicalBootstrap
--                 (backend/internal/persistence/bootstrap_convergence.go)
--   Commands      the command methods together, in histories on one database
--   Base          what they share: tables as lists of rows (Base/Table), Go's pair of a value and an
--                 error (Base/Result), maps (Base/Dict), tests, lists and texts; Fixture has
--                 tables for the tests
-- Where a method has many types, validations and queries, these are in a child of its file:
-- Terminal/Rows, Decision/Rows, Delivery/Claims, Accepted/Mutation, Intake/Recorded and
-- Convergence/Covered.
--
-- How the code is modelled. A method is a function from the tables (Store.Db) to a result and the
-- tables after it. A method that opens a transaction is a chain of steps `..._tx`, each of which
-- may end with an error, run by Base.Result.transact: on an error the deferred Rollback leaves the
-- tables as they were. A SELECT ... FOR UPDATE is a search in the list, an UPDATE rewrites the rows
-- that match its WHERE clause, an INSERT appends. The row locks serialise the transactions of a
-- trip, so a history is a list of calls. An object with a mutex is a record, and each part of a
-- method that holds the mutex is one step of a history. Which statements fail in the driver, the
-- commit among them, is a parameter (Base.Result.Link), and so are the readings of
-- clock_timestamp().
--
-- Numbers are natural numbers, and the one counter that the code increments unchecked, the
-- observation number, wraps at 2^64: the versions are uint64 or bigint with a CHECK that they are
-- not negative, and the code compares them with math.MaxInt64 before it converts or increments
-- them, which the model does too. A timestamptz is a number of microseconds since Go's zero time.
-- Identifiers are ASCII texts; a payload or checksum is a text with a character for each byte; a
-- JSON value is its jsonb normal form. The int64 times of activities are integers, in Unix
-- milliseconds. SHA-256, json.Valid, json.Marshal, parseCurrentPlan, DecodeStoredEvent,
-- NewRequestID, rand.Int, what a sink or the planner answers and the rows that SKIP LOCKED passes
-- over are parameters. There is no fuel: every loop is a recursion on a list.
--
-- Not modelled: a trip whose current_plan_id is NULL, which migrations/
-- 00004_v15_frontend_foundation.sql allows and on which the Scan of Persist and of
-- ResolveCanonicalBootstrap fails; the tables' foreign keys and CHECK constraints beyond the ones
-- said above, deadlocks, contexts that are cancelled (they are driver failures), the polling loop
-- of the dispatcher, the acceptance of proposals, the canonical commands, snapshots and the
-- bootstrap messages, and the parts of the backend that only translate between wire messages, JSON
-- and rows. The planner engine and the frontend are other programs.
pub mod Base
pub mod Uuid
pub mod Store
pub mod Fixture
pub mod Lease
pub mod Proposal
pub mod Accepted
pub mod Wire
pub mod Dispatch
pub mod Telemetry
pub mod Terminal
pub mod Confirm
pub mod Mirror
pub mod Delivery
pub mod Decision
pub mod Admission
pub mod Hub
pub mod Supervisor
pub mod Intake
pub mod Commands
pub mod Convergence
