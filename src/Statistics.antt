-- ===== src/Statistics.antt =====
-- src/analysis/Statistics.cpp: counts and times that the analysis collects.
pub mod Defs
pub mod Sized
