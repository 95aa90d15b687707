-- ===== src/MpiAnalysis.antt =====
-- class MPIAnalysis of src/analysis/MPIAnalysis.cpp.
pub mod Defs
