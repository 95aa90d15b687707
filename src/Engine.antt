-- ===== src/Engine.antt =====
-- src/backend/GraphEngine.cpp: the graph, the streams and the nodes that the analysis works on.
pub mod Defs
pub mod Outcomes
pub mod Nodes
pub mod Queries
pub mod Sanity
pub mod SaneNodes
pub mod Regions
pub mod RegionLaws
pub mod Closest
pub mod WalkBack
pub mod QueryLaws
pub mod Joining
pub mod Latest
pub mod LinkLaws
