-- ===== src/HttpLike.antt =====
-- httplike/parser/parser.cpp: the parser of messages that have a first line, headers and a body.
-- A pointer into the data is the bytes in memory from it on, which go on behind the data.
pub mod Kit
pub mod State
pub mod Line
pub mod Feed
pub mod Plain
pub mod Text
pub mod Steps
pub mod Head
pub mod Body
pub mod Content
pub mod Message
pub mod Split
mod Tests
