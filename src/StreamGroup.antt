-- ===== src/StreamGroup.antt =====
-- src/backend/EventStreamGroup.cpp: the streams of one process.
pub mod Defs
pub mod Laws
pub mod FirstStream
pub mod Reached
pub mod Lookups
