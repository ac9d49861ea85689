-- ===== src/Relay.antt =====
-- The relay's community side: frames of include/community/wire.h, and relay/community_router.cpp.
pub mod Wire
pub mod Router
mod Tests
