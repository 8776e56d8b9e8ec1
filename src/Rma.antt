-- ===== src/Rma.antt =====
-- The RMA analyzer's run time, src/instrumentation/rma.
pub mod Interval
pub mod Store
pub mod Outcome
pub mod Windows
pub mod Tags
pub mod Thread
pub mod Epochs
pub mod Calls
pub mod Fortran
pub mod Tests
