-- ===== src/Transport.antt =====
-- intempt/_transport.py
pub mod State
pub mod RetryAfter
pub mod Post
pub mod Pool
pub mod Answers
pub mod Sent
pub mod Calls
mod Tests
