-- ===== src/Json.antt =====
-- src/json.cpp and include/stdromano/json.hpp: the parser, the writer and the document.
pub mod Value
pub mod Parser
pub mod Writer
pub mod Ends
pub mod Strings
pub mod Numbers
pub mod Printable
pub mod Arrays
pub mod Dicts
pub mod RoundTrip
pub mod Chain
pub mod Tags
pub mod Document
pub mod Containers
pub mod Getters
pub mod Setters
mod Tests
