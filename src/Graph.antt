-- ===== src/Graph.antt =====
-- src/backend/include/graph/Graph.hpp and src/backend/Graph.cpp: the dependency graph.
pub mod Defs
pub mod Edges
pub mod SubGraph
pub mod SortedInsert
pub mod CriticalPath
pub mod Choice
pub mod Before
pub mod Chain
pub mod Walk
