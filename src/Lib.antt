-- ===== src/Lib.antt =====
-- A verification library of the agent driver: its state machines and the contract that keeps the
-- state of a session. Paths are from the repository's root.
--
-- The driver runs one agent process for a host. It owns machines that many call sites share: the
-- status of the runtime, the terminals of runs and of the instance, the history of the commands that
-- it received, and the queues between its parts. The contract library gives the durable state that
-- the driver and its host agree on: a snapshot of a session with its runs, items and interactions,
-- and the mutations that change it.
--
-- RuntimeState (src/core/driver-runtime-state.ts): `DriverRuntimeStateMachine` is the record of its
--   private fields; `new`, `begin_run`, `end_run`, `begin_approval`, `end_approval`, `enter`,
--   `owns_run` and `is_shutting_down` are its methods. A method that throws is a `Result`.
--   RuntimeState/Runs holds sequences of calls, RuntimeState/Reach the driver that makes them: the
--   kernel and the dispatcher, which number the runs and answer each approval once.
-- Queue (src/core/async-value-queue.ts): `AsyncValueQueue` with its counters, buffer and waiters. A
--   promise is the number of its call of `next`; the model records which promise got which value.
--   The reserved entries and an unlimited number of bytes are modelled; `values()` repeats `next`.
-- Terminal (src/core/driver-terminal-state.ts, src/core/driver-turn-cancelled-error.ts): the methods
--   on runs are in Terminal/Run, the settlement of inputs in Terminal/Input, the instance's terminal
--   and the shutdown in Terminal/Instance. An `AbortController` is the field `abort_reason`; a
--   ticket's `signal` is a number. Terminal/Calls holds sequences of calls in any order.
-- Contract (src/contract): Common, Content, State, Interaction and Snapshot are the data (common.ts,
--   content.ts, state.ts, mutation.ts, content-admission.ts), with the refinements of the schemas
--   that relate several fields. Transition and Put are which changes are admitted
--   (state-validation.ts, invariant.ts); RunGraph, Checks and Validate are `validateState`; Reducer
--   is reducer.ts: `applyMutation` in `advance` and `apply_mutation`, its loop over operations in
--   `apply_operations`, the collection of a removed run's descendants in `collect_removed`. Sync is
--   `applySyncPayload` with the schemas of sync.ts, called without its optional admission limits.
--   Canonical and Common/Ids are what a parse changes: `protocolIdSchema` turns an identity into upper
--   case. `canonical_snapshot` and its like are the values that the schemas return, and each function
--   that parses its arguments in the source starts with them in the model.
-- Contract/Preview (src/contract/preview.ts, src/contract/preview-validation.ts): the updates of a
--   stream of text, what a reader makes of them (`applyPreviewUpdate`) and their coalescing; Buffer is
--   `createPreviewBuffer`, whose drain is a state (idle, awaiting a flush, ending) and whose promise and
--   timer are events; Admission is `validatePreviewBatch`.
-- Contract/Command (src/contract/command.ts, src/contract/command-validation.ts): the commands and
--   `validateCommand`. A parameter reads the field `whileRunning` of a capability.
-- Contract/Executor (src/contract/executor-mutation.ts): the mutations that an executor proposes and
--   `normalizeExecutorMutation`. The dates of the host are the record `Dates`.
-- Delivery (src/core/driver-command-delivery.ts): `DriverCommandDelivery` as the list of its tracked
--   commands; a command's promise `delivery` is the list of the chained promises that have not
--   settled, and a settlement is an event. `reject` sends outside that promise; what it sends for a
--   tracked command is recorded apart from what `accept` and `finish` send. Attempts is the loop that sends a terminal status, over the
--   times and the outcomes of its attempts.
-- SkillPaths (src/skill-package/path-admission.ts): the admission of the paths of a skill package, on
--   lists of UTF-16 code units. `toLowerCase` is a parameter.
-- Settlement (src/core/external-tool-effect-settlement.ts): the settlement of an MCP tool call within the
--   byte limit; the size of an encoded settlement is a parameter.
--
-- Values. A JSON value is carried as a text, equal for deeply equal values. A timestamp is its text
-- with the second and the digits of the fraction that `timestampParts` reads from it. A number that
-- is only compared is its rank. A thrown error is a `Result`.
--
-- Fuel. `chase` follows a chain with the number of runs and one, `collect_removed` repeats its pass
-- as often as there are runs; a chain that does not close visits a run once, and each pass but the
-- last collects one. The error `out_of_fuel` stands for a loop that its bound cuts off.
--
-- Not modelled: the wire frames of src/contract, the byte limits of admission, the dispatch of
-- commands and the permission broker of src/core, the stores and the archives of skill packages. The
-- checks of single fields by the schema library, the adapters of agent back ends, the surfaces and
-- the entry points are input and output. That an identity is a ULID is such a check, and `receive`
-- compares identities as they are given to it.
pub mod Base
pub mod RuntimeState
pub mod Queue
pub mod Terminal
pub mod Contract
pub mod Delivery
pub mod SkillPaths
pub mod Settlement
