-- ===== src/Lib.antt =====
-- The Intempt Python SDK: a server-side client that sends events, in batches if it is asked to, and
-- reads feature flags. The package is intempt/ of the repository's src folder: `_client.py` builds
-- events and reads flags, `_buffer.py` queues and retries them, `_transport.py` posts them over one
-- pooled connection, `_config.py` resolves and patches the options, `_util.py` and `_errors.py` hold
-- the checks and the exceptions. A client calls its buffer, whose `send` callback is the client's
-- `_send`, which posts through the client's transport.
-- examples/ and scripts/ hold programs that use the package.
--
-- Files, with paths from src/intempt unless they name another folder:
--   Prelude: library names passed on, lists and tests on the native numbers.
--   Python: what the source uses of the language: texts, floats (binary64 with round-to-even, from
--     2 ^ 1024 on infinite; below the normal range the exponent has no lower end), values, results,
--     UTF-8, base64 and percent encoding, and `Decode` for its way back.
--   Errors: _errors.py. An exception is a value of `Error`, a function that may raise returns a
--     `Result`.
--   Util: _util.py; Util/Chunk on `chunk`.
--   Config: _config.py and the credentials of _transport.py. Options are association lists of
--     values. `Resolve` is `resolve_config`, `Merge` is `merge_config`.
--   Buffer: _buffer.py. `State` holds the attributes, `Retry` the handling of a failure, `Drain` the
--     loop of `flush` and its callers; the rest are proofs. What the buffer calls (`send`, the clock,
--     `sleep`) is the record `Env`. `flush` starts where it has `_drain_lock`, which `close_behind`
--     waits for. `Threads` is the step relation of producers that enqueue while another thread
--     flushes.
--   Transport: _transport.py. `State` holds the attributes and the pooled connection, `RetryAfter`
--     and `Post` the exchange; `Calls` are sequences of calls on one transport.
--   Client: _client.py and _flags.py. `Session` is the client without its buffer, `Events` builds
--     events, `Commerce`, `Consent` and `Recommend` are the calls of those names, `Flags` and
--     `AllFlags` read flags. `Writes` and `OptOut` are about a client that has opted out,
--     `Shutdown` and `Wire/Closed` about one that is closed, `Wire` about the requests of a buffered
--     client.
--     `Events/Pool` is the thread pool of `track_batch`, as steps of its workers. `Usable` is the
--     invariant of an open client under its calls, `Buffered` the rule for what `_submit` keeps.
--   Programs: the programs that use the SDK. `Process` holds what they share, a process with a client
--     and the statements on it, `Keeps` their rules. `Bare` is examples/bare/send.py, `Basic` is
--     examples/basic/app.py, `Gate` is scripts/mutation_gate.py, `Contract` is scripts/e2e.py.
--
-- State is passed explicitly. The fields `effects`, `trace` and `warnings` are no attributes of the
-- source: they record what an object has done, the latest first.
--
-- Fuel: the loop of `flush` runs on `rounds_left` + 1 rounds, a bound on the rounds from a valid
-- state, whatever `send` does; `Buffer/Rounds` is about that bound. `range` of `chunk` has the length
-- of its list as fuel, one turn for each index. `bits` and the decimal digits have the number itself.
--
-- Parameters, for code that the repository does not hold: the HTTP library, `json`, `float` of a text
-- and the parsing of dates (the record `Net`), the clocks, `uuid4`, `str` of values other than
-- numbers, texts, Booleans and None; of the example server `urlparse` and `parse_qs`, and which
-- exceptions of other code are a `ValueError`.
--
-- Not modelled: the debugging repr of errors and the refusal to pickle credentials; `int` of a text
-- with digits outside ASCII; `BatchOptions` with a `float` as a size, which Python accepts; the
-- garbage collection of connections. A call of `_send` on the thread pool of `track_batch` is one
-- step: nothing but the transport changes in it, under the transport's lock. Of the programs: the
-- sockets, threads and signals of the server, and the layout of what is printed.
pub mod Prelude
pub mod Errors
pub mod Python
pub mod Util
pub mod Config
pub mod Buffer
pub mod Transport
pub mod Client
pub mod Programs
