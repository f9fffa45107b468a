-- ===== src/String.antt =====
-- include/stdromano/string.hpp, src/string.cpp: the string.
pub mod Storage
pub mod Contents
pub mod Appended
pub mod Inserted
pub mod Erased
pub mod Views
pub mod Strip
pub mod Search
pub mod Splits
pub mod Copies
pub mod Cases
pub mod Mapped
pub mod Codepoints
mod Tests
