-- ===== src/CommandLine.antt =====
-- src/command_line_parser.cpp and include/stdromano/command_line_parser.hpp
pub mod Parser
pub mod Values
mod Tests
