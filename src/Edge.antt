-- ===== src/Edge.antt =====
-- src/backend/include/graph/Edge.hpp: the dependencies between nodes, their weights, and the blame
-- that is charged to them.
pub mod Defs
pub mod Weight
pub mod Blame
