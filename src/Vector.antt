-- ===== src/Vector.antt =====
-- include/stdromano/vector.hpp: the vector.
pub mod Storage
pub mod Elements
pub mod Grown
pub mod Contents
pub mod Removed
pub mod Found
mod Tests
