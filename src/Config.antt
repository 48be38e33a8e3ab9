-- ===== src/Config.antt =====
-- intempt/_config.py. `Options` is `BatchOptions`, `Batch` its checks, `Host` the host and port,
-- `Credentials` the API key of intempt/_transport.py; `Resolve` and `Merge` are the two functions
-- that make a `ResolvedConfig`.
pub mod Options
pub mod Batch
pub mod Host
pub mod Credentials
pub mod Record
pub mod Paths
pub mod Resolve
pub mod Merge
pub mod Samples
mod Tests
