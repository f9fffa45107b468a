-- ===== src/Python.antt =====
-- src/python.cpp: the lexer of Python source.
pub mod Token
pub mod Tables
pub mod Cursor
pub mod Literals
pub mod Words
pub mod Lines
pub mod Lexer
pub mod Suffix
pub mod Sound
pub mod Passes
pub mod Texts
pub mod Levels
pub mod Rounds
pub mod Longest
mod Tests
