-- ===== src/MpiRules.antt =====
-- The rules for MPI of src/analysis/include/mpi.
pub mod Collective
pub mod LastEnter
pub mod Blocking
pub mod Judging
pub mod CollectiveLaws
pub mod PointToPoint
pub mod Agreement
