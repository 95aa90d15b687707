-- ===== src/Node.antt =====
-- src/backend/include/graph/Node.hpp.
pub mod Flags
pub mod Paradigm
pub mod Misc
pub mod Ofld
pub mod Mpi
pub mod Omp
pub mod Metric
pub mod Defs
pub mod Kinds
pub mod Order
pub mod OrderLaws
pub mod Counters
