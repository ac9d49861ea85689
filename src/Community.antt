-- ===== src/Community.antt =====
-- Communities: a log of signed operations that its members merge, community/model.cpp, and the nodes that exchange it,
-- community/node.cpp.
pub mod Model
pub mod Node
mod Tests
