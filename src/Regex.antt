-- ===== src/Regex.antt =====
-- src/regex.cpp and include/stdromano/regex.hpp: the bytecode, its compiler and its machine.
pub mod Opcode
pub mod Vm
pub mod Syntax
pub mod Semantics
pub mod Steps
pub mod Simulation
pub mod Correct
pub mod Compiler
pub mod Finalize
pub mod Api
pub mod Emit
pub mod Reads
pub mod Appends
pub mod Cursor
pub mod Ranges
pub mod Parse
pub mod Grammar
pub mod Scan
pub mod Resolve
pub mod Scannable
pub mod Refine
pub mod OwnGroups
pub mod Matches
pub mod Replace
pub mod Bounds
mod Tests
