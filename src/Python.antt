-- ===== src/Python.antt =====
-- The parts of Python's language and standard library that the source uses.
pub mod Sort
pub mod Number
pub mod Float
pub mod Text
pub mod Format
pub mod Regex
pub mod Scan
pub mod PySet
pub mod Result
pub mod Dict
