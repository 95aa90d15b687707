-- ===== src/MpiStream.antt =====
-- src/backend/MpiStream.cpp: the streams of MPI processes and their pending requests.
pub mod Defs
pub mod Handlers
pub mod Maps
pub mod Lifecycle
pub mod Tracked
pub mod Finished
pub mod Kept
pub mod KeptCalls
pub mod KeptLoops
pub mod Reached
pub mod ReachedLaws
pub mod Returning
pub mod Refused
pub mod HalfDone
pub mod TestAll
pub mod Requests
