-- ===== src/WebSocket/Stages.antt =====
-- The parts of `ProcessMessage` of websocket/parser/parser.cpp, one by one: how each moves the
-- buffer's offset, and what it does in each phase of the stream.
pub mod Buffer
pub mod Fill
pub mod Result
pub mod Payload
pub mod Key
pub mod Size
pub mod Head
pub mod Process
