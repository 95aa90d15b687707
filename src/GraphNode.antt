-- ===== src/GraphNode.antt =====
-- src/backend/include/graph/GraphNode.hpp: the pairing of enter and leave events, and the binary
-- searches in the sorted node vectors.
pub mod Search
pub mod SearchLaws
pub mod FindNode
pub mod TimeSearch
pub mod TimeLaws
pub mod TimeLast
pub mod TimeFirst
pub mod Partner
