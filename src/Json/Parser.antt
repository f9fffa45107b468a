-- ===== src/Json/Parser.antt =====
-- src/json.cpp: `JsonParser_` and `loads`. A parser takes the bytes from its position on and leaves
-- those behind what it has read.
mod Text
mod Numbers
mod Documents
unfoldable pub use Text.*
unfoldable pub use Numbers.*
unfoldable pub use Documents.*
