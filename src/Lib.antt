-- ===== src/Lib.antt =====
-- orihsus is a reverse proxy for one upstream API that shares a set of upstream keys among its
-- clients.
--
-- The parts and how they interact. `src/config.rs` reads and validates the configuration;
-- `src/app.rs` assembles the runtime from it; `src/queue.rs` admits requests; for each admitted
-- request `src/gateway.rs` asks `src/pool.rs` for a key, sends the request upstream and reports
-- the outcome to the pool; `src/usage.rs` reports usage observations to the pool, and
-- `src/hot_reload.rs` replaces its keys. The state that all share is that of the pool.
--
-- Files. Prelude has what all share: tests, lists, `Result` with an operator for `?`, texts, maps
-- and lists without a repetition. Time and Float model durations, instants and the comparison of
-- 64-bit floats.
-- Pool models `src/pool.rs`. Pool/Policy: `PoolPolicy`, its `validate`, `deadline_after` and
-- `backoff_at`. Pool/Jitter: the trait `Jitter` by its two implementations, and `XorShift64`.
-- Pool/Entry: `KeyEntry`, `key_suffix` and the searches of the entry list. Pool/Cursor:
-- `advance_cursor`. Pool/State: `KeyPool` with its inner state, `new`, `with_jitter`,
-- `replace_keys` and `has_available_key`. Pool/Report: `report_success`, `report_failure`,
-- `report_proactive_cooldown` and `report_liveness_failure`. Pool/Attempts: `RequestAttempts` with
-- `try_select_unused` and `next_immediate`. Pool/Wait: `next` and `earliest_recovery`.
-- Pool/Status: `status_snapshot`. Pool/History has histories of operations in any order. The files
-- below each of these prove what their names say.
-- Config models `src/config.rs`: Config/Raw what is read, Config/Types what is validated, and
-- Config/Credentials, Config/Limits, Config/Handling and Config/Hardening the sections of
-- `Config::try_from`, which Config/Load puts together.
-- Audit models `src/audit.rs`. Audit/Fingerprint: `fingerprint`. Audit/Summary: `AttemptSummary`
-- and `AttemptSummaries`. Audit/Writer: `write_loop`, one command at a time, with `warn_once`;
-- Audit/Writer/Faults reads the faults of a run off the files alone, and Audit/Writer/Journal the
-- log that the commands ask for. Audit/Handle: `AuditWriter` with `start`, `try_record`, `reopen`,
-- `shutdown`, `shutdown_bounded` and its drop, over the bounded channel; Audit/Handle/Traffic the
-- calls and the turns of the thread as events.
-- Semaphore states what tokio's fair semaphore does, with the line of those that wait and the
-- permits handed to them, and Semaphore/Fifo has one that does it; Queue models `src/queue.rs`
-- over it, and Queue/Traffic the requests that run and those that have a place, each by its
-- ticket. App models the pure part of `assemble` in `src/app.rs`, with `BodyBudget::new` of
-- `src/gateway.rs`. Gateway/RateLimit models `classify_429` and `parse_resets_in` of
-- `src/gateway.rs`, which turn the body of a 429 answer into the failure that the pool is told.
-- The rest of Gateway models what `src/gateway.rs` does with a request once it has been read.
-- Gateway/Retry: the loop of `proxy_request` over its attempts, `take_turn` for one turn, over the
-- pool's own operations; Gateway/Retry/Errors reads the last upstream error off the turns alone.
-- Gateway/Upstream: `consume_error_response`, `consume_classify_body`, `classify_error_body` and
-- `prepare_response`. Gateway/Pump: `pump_upstream` and the task of `stream_response`.
-- Gateway/Usage: `extract_usage` and `JsonUsageParser`; Gateway/Sse: `SseUsageParser`.
-- Gateway/Headers: the headers that `forward_request` sends and `filter_response_headers` passes
-- back. Gateway/Identity: `check_proxy_auth` with what it calls, and `request_id_for`.
-- Gateway/Store: `RuntimeState`, and `RuntimeStore` with the pool that is replaced under its lock.
-- HotReload models `src/hot_reload.rs`: `worker` with its status, over its wake-ups behind the
-- debounce, and the callback of `run` in `src/main.rs` that applies a reload to the store, the
-- pool, the usage monitor and the model synchronization; Config/Compare is the derived `PartialEq`
-- of the sections that only a restart applies.
-- UsageMonitor models `src/usage.rs`: `evaluate`, with UsageMonitor/Due for what it is to find,
-- and in UsageMonitor/Poll `parse_history_record`, `UsageSnapshotStore`, `UsageHistorySink` and
-- `poll_once_with_observers`.
-- ModelMonitor models `src/models.rs`: `parse_models`, and a round of the worker that
-- `ModelMonitor::start_with` spawns.
--
-- How the code is read. A duration or an instant is a natural number of nanoseconds. Each
-- operation of the pool holds its lock throughout, so it is a function of the pool and of its
-- readings of the clock; an interleaving is a sequence of such operations. 32-bit and 64-bit
-- counters wrap, as in the release profile. A panic is `none`. A future between its polls is a
-- state: the loop of `next` takes one `Round` for each turn, which says what other tasks did to
-- the pool and what the clock read. The loop takes as many rounds as it is granted; one for each
-- nanosecond up to the deadline, and one more, are enough. Equal strings stand for equal keys: a
-- fingerprint is the first 12 digits of the digest, so that two keys may share one, and theorems
-- say so where they need that they do not.
-- A body is a `Stream`: chunks that arrive each at an instant, and its end, a failure or silence;
-- a timeout compares the instant with the deadline. A `Turn` of the request loop brings what other
-- tasks do to the pool, the readings of the clock and the upstream's answer, so a theorem on every
-- list of turns is one on every behaviour of the environment; three turns are enough, since a
-- valid policy gives a request at most two keys. The thread of the audit writer and its clients
-- are a sequence of events in any order. Bytes and characters are numbers.
--
-- Parameters. SHA-256, the parser of IP addresses, the reader of JSON, the reader and the printer
-- of a date, the upstream URL, the conversion between bytes and text, the encoder of an audit
-- record, the file system of the audit log, tokio's semaphore with its bound on permits, and the
-- clock. A response comes with its `Retry-After` parsed and its `Content-Type` compared.
--
-- Not modelled. Network and file I/O, YAML and JSON parsing, in `src/gateway.rs` the handlers
-- around the request loop with their audit records and the reservation of the body budget,
-- `src/server.rs`, the fetcher, the timer and the history files of `src/usage.rs`, the fetcher and
-- the timer of `src/models.rs`, the file watcher and the debounce of `src/hot_reload.rs`, the
-- command line and the load test tool: they are, for the most part, I/O over other libraries.
-- Poisoned locks do not occur, since the release profile aborts on a panic.
pub mod Prelude
pub mod Time
pub mod Float
pub mod Audit
pub mod Config
pub mod Pool
pub mod Semaphore
pub mod Queue
pub mod App
pub mod Gateway
pub mod HotReload
pub mod UsageMonitor
pub mod ModelMonitor
