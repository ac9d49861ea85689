-- ===== src/Protocol.antt =====
-- common/drawing_protocol.cpp and its header.
pub mod Number
pub mod Frame
pub mod Records
mod Tests
