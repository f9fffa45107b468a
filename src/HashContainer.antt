-- ===== src/HashContainer.antt =====
-- include/stdromano/hashcontainer.hpp, hashmap.hpp and hashset.hpp: the robin-hood hash table.
pub mod Bits
pub mod Table
pub mod Access
pub mod Weight
pub mod Erase
pub mod Insert
pub mod Ends
pub mod Map
pub mod Emplace
mod Tests
