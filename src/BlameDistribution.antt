-- ===== src/BlameDistribution.antt =====
-- src/analysis/include/BlameDistribution.hpp: the blame of a wait state goes to the edges before it.
pub mod Callbacks
pub mod Defs
pub mod Laws
