-- ===== src/Client.antt =====
-- intempt/_client.py and intempt/_flags.py
pub mod Session
pub mod OptOut
pub mod Shutdown
pub mod Wire
pub mod Events
pub mod Commerce
pub mod Consent
pub mod Recommend
pub mod Writes
pub mod Flags
pub mod AllFlags
pub mod Buffered
pub mod Usable
pub mod Samples
mod Tests
