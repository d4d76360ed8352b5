-- ===== src/Lib.antt =====
-- System 2, the execution engine: a verification library for src/system2.
--
-- System 3 publishes approved orders and keepalives on a durable queue. System 2 pulls them,
-- checks them, builds a protected broker order from each, submits it once, and settles the
-- message. A safety monitor closes the submit gate while System 3 is silent. The parts:
--
-- - Clock: src/system2/execution/pipeline.py, `is_in_session`.
-- - Message, Orders: JSON values and the contracts `RiskContext`, `ApprovedOrder`,
--   `ConstructedOrder` (src/system2/execution/pipeline.py) and `FillResult`
--   (src/system2/execution/fill_producer.py), with `from_dict` and `guard_keys`.
-- - Safety: src/system2/execution/safety_mode.py. `SafetyMonitor` is a record; `evaluate`,
--   `record_heartbeat`, `request_bypass`, `exit_bypass` and `can_submit` are functions on it, with
--   the clock's time as an argument. Laws: Safety/Invariant, Safety/Freshness, Safety/Traces.
-- - Queue: src/system2/common/queue_backend.py, `LocalDurableBackend`. The SQLite table is a list of
--   rows, each statement one function on it. Laws: Queue/Rows, Queue/Order, Queue/Attempts,
--   Queue/Limit, Queue/Recovery, Queue/Fates, Queue/Reclaiming,
--   Queue/Durability, Queue/Delivery; Queue/Idle, Queue/Leases, Queue/Claims, Queue/Settling and
--   Queue/Nacking follow a message from its delivery to its settling.
-- - Validation: src/system2/execution/validation.py. Laws: Validation/Checks, Validation/Envelope,
--   Validation/Unreadable, Validation/Returning, Validation/Expiry, Validation/Limits.
-- - Pipeline/Build: the price gates and `build_order` of src/system2/execution/pipeline.py. Laws:
--   Pipeline/Build/Protection, Pipeline/Build/Legacy.
-- - Pipeline/Process: `process`, the backup guard and the processed store (also
--   `SqliteProcessedStore` of src/system2/execution/outbound_consumer.py). What the hooks do is a
--   world: the marked keys, the orders whose submission returned and those whose submission raised
--   (which the broker may hold or not), the calls of the other hooks. Laws:
--   Pipeline/Process/Once, Pipeline/Process/Gates.
-- - Consumer: src/system2/execution/outbound_consumer.py. `handle` is one message, Consumer/Polling
--   a batch. Laws: Consumer/Stamps, Consumer/Settling, Consumer/Credit,
--   Consumer/Moves, Consumer/Redelivery, Consumer/Polling.
-- - Broker: src/system2/broker/oanda_adapter.py. The transport is a record of functions on the
--   broker's state. Broker/Fills is the report of a fill, Broker/Submission `submit` with its
--   reconciliation; the display precision of the instrument is an argument, and so is the number
--   of attempts. Laws: Broker/Reconcile, Broker/Once, Broker/Payloads.
-- - Positions: src/system2/broker/position_manager.py. A tick is `on_tick` on a `ManagedTrade` and the
--   log of the broker's calls, `evaluate_all` a round over the trades. Laws: Positions/Stops,
--   Positions/Breakeven, Positions/Closing.
-- - Closes: the exit reasons, `build_close_event` and `CloseEmitter.emit` of
--   src/system2/execution/close_tracker.py, with the ledger and the outbox as state and their answers
--   as arguments. Closes/Facts reads a close out of the broker's responses, Closes/Sweep is
--   `CloseSweeper.sweep`, Closes/Paging the scan of the transactions, with a bound on its pages that
--   the range of ids gives, Closes/Adoption the builders of managed trades. Laws: Closes/Emission,
--   Closes/Sweeping, Closes/Counting, Closes/Scanning, Closes/Ledger, Closes/Identity.
-- - Artifacts: the artifact root of src/system2/artifact_sync/downloader.py, a record of sets, links
--   and the state file. Artifacts/Manifest parses the published pointer, Artifacts/Downloader is
--   `ModelDownloader`. Laws: Artifacts/Swap, Artifacts/Stages.
-- - Regime: Regime/Smoothing and Regime/Mapping are src/system2/artifact_sync/regime_mapping.py,
--   Regime/Debouncer and Regime/Detector src/system2/artifact_sync/live_regime.py; the detector reads
--   the root that the downloader writes. Laws: Regime/Smoothing/Segments, Regime/Mapping/Mass,
--   Regime/Debouncer/History, Regime/Detector/Loading, Regime/Detector/Locality.
-- - Producer: src/system2/execution/fill_producer.py over the model of the queue. `flush` takes a bound
--   on its rounds; one more than the open rows of the outbox is enough, since a round that goes on
--   closes a row. Laws: Producer/Steady, Producer/Flushing, Producer/Keeping, Producer/Draining.
-- - Lifecycle: src/system2/execution/lifecycle.py. One state holds the stop, the consumer with the
--   monitor, the trades and the sweeper; `tick` composes the models of the parts, Lifecycle/Shutdown
--   is the start, the loop and the shutdown. Laws: Lifecycle/Stop, Lifecycle/Monitor, Lifecycle/Silence,
--   Lifecycle/Flattening, Lifecycle/Run.
-- - Prelude holds tests, results, lists, integers and floats; Samples the data of the tests, which
--   stand in the modules named Examples.
--
-- Conventions. A time is a number of microseconds since 1970 (the database's own clock counts
-- whole seconds). A Python float is a whole number of ticks, NaN or an infinity, with exact
-- arithmetic: rounding is left out. A result carries a raised exception as a value. `float(s)` and
-- `datetime.fromisoformat` with `.astimezone(timezone.utc)` on texts are parameters (`Readers`); an
-- integer beyond the range of `float` is a value of its own (`huge`), on which `float()` raises an
-- OverflowError; `upper` is that of the ASCII letters. An `ack_id` is a number that was never given out before, in place of a UUID. Callables
-- that the components are given (price source, broker, recorder, emitter, validator, keepalive
-- sink) are arguments that return or raise. Texts of reasons and of log lines are left out where
-- nothing reads them. Every loop is structural recursion, over a list or over the
-- number of attempts that are left. The outer loop of the batch smoothing has a bound on its rounds,
-- the number of bars, which is enough: each round takes one.
--
-- Not modelled: the network and file access of the broker transport, the object storage, the
-- database and the telemetry; the reading of the configuration in lifecycle.py; the Pub/Sub backend;
-- concurrency inside one SQLite statement, which the database excludes.
pub mod Prelude
pub mod Clock
pub mod Message
pub mod Orders
pub mod Safety
pub mod Queue
pub mod Validation
pub mod Pipeline
pub mod Consumer
pub mod Broker
pub mod Positions
pub mod Closes
pub mod Artifacts
pub mod Regime
pub mod Producer
pub mod Lifecycle
pub mod Samples
