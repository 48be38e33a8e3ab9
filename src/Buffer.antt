-- ===== src/Buffer.antt =====
-- intempt/_buffer.py: the opt-in event buffer. `State` holds the attributes of a `Buffer`, `Retry`
-- the methods of the retry policy, `Drain` the loop of `flush` and the methods that run it; the
-- other modules prove what they do.
pub mod State
pub mod Retry
pub mod Drain
pub mod Valid
pub mod Rounds
pub mod Cases
pub mod Conserve
pub mod Frame
pub mod Drained
pub mod Producer
pub mod Waits
pub mod History
pub mod Outage
pub mod Width
pub mod Close
pub mod Deadline
pub mod Threads
mod Tests
