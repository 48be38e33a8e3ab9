-- ===== src/Python.antt =====
-- The parts of the language and its standard library that the source uses.
pub mod Text
pub mod Float
pub mod Value
pub mod Result
pub mod Decode
pub mod Encode
pub mod Segment
