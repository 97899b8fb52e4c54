-- ===== src/Lib.antt =====
-- The verification library of downshift: a laboratory that routes coding sessions to a weak or a strong
-- model, records what every attempt did, and evaluates the outcomes.
--
-- The parts, and the files of the repository that they model:
--   * Config: src/config/lab-config.ts. `validateConfig`, the envelope of limits that the configured
--     models share, and the compatibility of the two coding models.
--   * Usage: src/artifacts/usage.ts. Normalized usage, the ledger of provider calls, its summaries
--     (Usage), and the cost of a role (Usage/Cost).
--   * Decision: the data of a routing decision, of src/pi/session-routing.ts.
--   * Bridge: src/bridge/protocol.ts and src/bridge/client.ts. Bridge has the frames that are read and
--     `parseFrame`; Bridge/Values JSON values; Bridge/Messages the frames that are written and the options
--     of a decision; Bridge/Client `SwitchyardBridgeClient`.
--   * Routing: src/pi/session-routing.ts. Routing has the data and the controller; Routing/Durable the
--     decisions' files and `load`; Routing/Ask `preflightAuth` and the question to the bridge;
--     Routing/Create `create`; Routing/Input the handlers of the session's start and of an input;
--     Routing/Handlers the other handlers and the runs of events.
--   * Runs: src/artifacts/run-artifacts.ts. Runs has the data; Runs/Outcome the consistency check of a
--     run result, the validation that is attached to it, the end of a check's process and of a
--     submission's validation in src/evaluation/validator.ts, and the outcome of a trial; Runs/Store the
--     artifact store with its journal; Runs/Store/Reading what `readAttempt` makes of a directory;
--     Runs/Store/Finalize how an attempt is closed.
--   * Recorder: src/artifacts/runtime-recorder.ts. Recorder has the state of `RuntimeArtifactRecorder`,
--     `errorStatus` and `track`; Recorder/Start `start` and `provenance`; Recorder/Events
--     `recordRoutingEvent` and `recordAuthEvent`; Recorder/Messages `recordAssistantMessage`;
--     Recorder/Finish `flush`, `captureWorkspacePatch` and `finalize`; Recorder/Extension the handlers of
--     its extension, and the runs of them and of its other methods. Recorder/Verdict, with Closing and
--     Handled, has the lemmas on what no step takes back. It writes through Runs/Store and Usage, and its
--     routing events are those of Routing.
--   * Experiment: src/evaluation/smoke.ts. The manifest's data; Experiment/Shuffle the generator
--     `mulberry32` and `shuffle`; Experiment/Schedule `evaluationSchedule`; Experiment/Budget the
--     monetary limit and the cost bound of a trial; Experiment/Dispatch `jobAt`, `experimentSpend` and
--     `nextEvaluationAction`, which read the attempts' directories through Runs/Store/Reading;
--     Experiment/Exit `validateSmokeReport` and `smokeExitCode`.
--   * Analysis: src/evaluation/analysis.ts. The groups of `aggregateExperiment`; Analysis/Categories
--     `primaryCategory` and the counts over the groups; Analysis/Records `loadExperimentRecords`;
--     Analysis/Report the refusals of `aggregateExperiment`, the report's counts and their check, with the
--     test of the report's schema and of its other numbers as a parameter; Analysis/Replay the costs of
--     trials and `replayThresholds`.
--   * Base: names of the libraries, Boolean tests, lists, results, texts, and the interface of numbers.
--     The modules called Samples hold concrete data, and those called Examples apply the theorems to it.
--
-- How the source is read:
--   * An operation that can throw returns a `Result` with a data type of the errors. An operation of an
--     object takes the object's state and returns the new one, also where it throws, since what was
--     assigned before the throw stays.
--   * The store's promise queue is the list of the events that are not written yet. A step is a call up to
--     its first `await`, or one write. `finalizeAttempt` is modelled as one step, so no other call comes
--     between its parts.
--   * Pi awaits the handlers of the session extension, so each is one step; timers and the user's choice of a
--     model are steps too. The bridge's process is the list of the lines that it prints and of the aborts.
--   * Token counts are exact natural numbers. A single count is bounded by `Number.MAX_SAFE_INTEGER` where
--     the source tests it; the rounding of sums beyond that is not modelled.
--   * Prices, costs, probabilities and thresholds are of the type of the interface Base/Number, since they
--     are binary64 numbers; a theorem that needs a law of their order takes it as a hypothesis.
--   * Ajv's schemas, the redaction of payloads, hashes, the clock, UUIDs, the file system and child
--     processes are parameters: tests, functions and values that the operations take.
--   * `appendEvent` throws on an event that the schema refuses before it returns a promise, so a handler that
--     tracks it stops there; its other errors are rejected promises, which the recorder remembers.
--   * Times are whole milliseconds, and the difference of two readings of a clock stops at 0. The call of
--     Pi's `abort` after a refused message is left out.
--   * `JSON.stringify` of two values with the same keys is compared as equality of the values, and lines of
--     a journal are read back as the events that they were printed from.
--   * Fields that have one possible value (schemaVersion, currency, thinking, semantics, artifacts) are left
--     out, and messages of errors are constructors with what is put into them.
--   * The operations of an experiment take any manifest, where the source reads one that
--     `validateSmokeManifest` has accepted, and find an attempt's directory by a function from attempt IDs.
--
-- Every loop is a recursion on a list or on an index that counts down. The only fuel is that of the printing
-- of a number in Experiment/Schedule: the number itself, which is at least the count of its digits.
--
-- Not modelled: task definitions and workspaces, containers, the launcher, the mock server and the
-- command-line tools.
pub mod Base
pub mod Config
pub mod Usage
pub mod Decision
pub mod Bridge
pub mod Routing
pub mod Runs
pub mod Recorder
pub mod Experiment
pub mod Analysis
