-- ===== src/Lib.antt =====
-- The Datafeed Server receives market data from exchanges, keeps a registry of websocket clients and their
-- topics, sends each client what it subscribed to, and reports on its own health over HTTP and in a database.
--
-- The parts, and the files that model them (paths from the repository's root):
--   Session          session/session_manager.h and .cpp: `add_client` to `broadcast_all`, each method under
--                    its own name. The state is the two maps of the class, as association lists; a
--                    `websocket_session*` is its address, a number, with 0 for the null pointer.
--   Websocket        server/server.cpp, class websocket_session. WriteQueue has `send_message`, `do_write` and
--                    `on_write` with the write that is under way; Topics has `extract_topics`; Reading has
--                    `on_read`, the constructor and the destructor. Reading calls Session's methods as the
--                    source does; what it hands to other components is part of its outcome.
--   Api              api/router/router.cpp and, in server/server.cpp, the routes of `build_router` and `on_read`
--                    of http_session. The path's regular expression is made as a text, as in the source,
--                    and read by the part of std::regex that it uses.
--   Broker           broker/src/adapter/eadapter.cpp: the client of the exchange in use, with what it was told.
--   Metrics          metrics/ring_buffer.h (RingBuffer) and the monitors, each under its class: QueueMonitor,
--                    SessionMonitor, FeedHealth, ExchangeMonitor (with its mutex), LatencyTracker,
--                    ThroughputTracker, NetworkMonitor, DatabaseMonitor and, as compiled for Linux,
--                    SystemMonitor; Atomics has their common accesses to a std::atomic, also interleaved.
--                    MetricsCollector forwards calls to the monitors and copies their reports into a
--                    Snapshot; StateManager takes snapshots and closes intervals; MetricAggregator sums the
--                    snapshots of an interval (Running has its fields, by group) and makes the interval's
--                    summary; SnapshotConverter makes rows of a summary, which Persistence, the callback of
--                    `main` in server/server.cpp, stores; WeeklyRollup makes a weekly summary of them.
--   Database         sadapter.h and sadapter.cpp, class SAdapter: Statements has the texts that are prepared, by
--                    their columns and expressions, History, Metrics and Summaries the rows of the tables of
--                    metrics with how they are written and read, Timestamps the text of a time, and Adapter the
--                    connection and the operations.
--   Prelude          tests, lists, words of 64 bits, integers, keys, maps and texts that the parts share.
--
-- Numbers: a `uint64_t` or `size_t` is a number below 2 ^ 64, and `add64` and `sub64` wrap. A counter's
-- theorem says below which number of calls it does not wrap. A ring's capacity is at most 2 ^ 63, so that no
-- sum of two indices wraps. The one loop on fuel, `raise`, ends with the fuel that `raise_max-ends` names.
-- An `int64_t` is an integer; `to_int64` wraps, and sums of them are taken to stay in range. A character
-- stands for one byte.
--
-- Concurrency: a method that holds its object's mutex throughout is one step, and so is a handler of a
-- websocket session, which runs on the session's strand. The monitors without a mutex are taken call by call,
-- and Atomics.Races has what the interleaving of their accesses can do.
--
-- A thread that waits for a mutex for ever is described up to there: `reading` of an outcome of `on_read` says
-- whether the next read starts, and nothing is said of what needs the mutex afterwards.
--
-- Times in the database: the process and the database's session are taken to be in UTC. How PostgreSQL prints a
-- time is Database.Timestamps.printed.
--
-- Parameters: nlohmann::json (Websocket.Reading.JsonLibrary, and the text that `dump` makes of the latencies),
-- Boost.Beast's requests and responses (Api.Http.HttpLibrary), the arithmetic of `double`
-- (Metrics.LatencyTracker.DoubleArithmetic, or a type whose values are only stored), and PostgreSQL with
-- libpqxx (Database.Adapter.Postgres; Database.Store fills it). The state manager takes the aggregation
-- of snapshots through an interface (Metrics.StateManager.Aggregation), which
-- Metrics.MetricAggregator.Forgetting fills.
--
-- Not modelled: of the database adapter the operations on other tables than those of metrics, and init/; the
-- handlers and controllers of api/ (formatting of what the other parts return); the exchange clients of
-- broker/, which are on the network; live_source/ and backtest_source/; metrics/snapshot_scheduler.cpp, which
-- nothing calls; the branches of the system monitor for macOS and Windows; main.cpp, the dashboard and the
-- tests.
pub mod Prelude
pub mod Session
pub mod Websocket
pub mod Metrics
pub mod Broker
pub mod Api
pub mod Database
