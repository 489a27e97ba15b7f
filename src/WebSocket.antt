-- ===== src/WebSocket.antt =====
-- websocket/parser/parser.cpp: frames, their encoding, and the incremental parser of the stream.
pub mod Frame
pub mod Parser
pub mod Feed
pub mod Stream
pub mod Stages
pub mod Rounds
pub mod Follow
pub mod Chunks
pub mod Header
pub mod Bits
pub mod RoundTrip
pub mod Wire
mod Tests
