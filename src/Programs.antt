-- ===== src/Programs.antt =====
-- examples/ and scripts/ of the repository: the programs that use the SDK.
pub mod Process
pub mod Keeps
pub mod Bare
pub mod Basic
pub mod Gate
pub mod Contract
