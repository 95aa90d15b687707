-- ===== src/Tests.antt =====
-- Concrete runs of the model.
pub mod Data
pub mod NodeTests
pub mod SearchTests
pub mod EdgeTests
pub mod GraphTests
pub mod PathTests
pub mod StreamTests
pub mod DeviceTests
pub mod InsertTests
pub mod EngineTests
pub mod MpiStreamTests
pub mod BlameTests
pub mod StateTests
pub mod CollectiveTests
pub mod PointToPointTests
