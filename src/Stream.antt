-- ===== src/Stream.antt =====
-- src/backend/include/EventStream.hpp and src/backend/EventStream.cpp: the events of one process,
-- thread or device stream.
pub mod Defs
pub mod Add
pub mod AddLaws
pub mod Consistent
pub mod AddGraphNode
pub mod Walk
pub mod LastNode
pub mod Insert
pub mod InsertLaws
