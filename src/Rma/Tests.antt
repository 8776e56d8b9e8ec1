-- ===== src/Rma/Tests.antt =====
-- The theorems on the RMA analyzer at concrete inputs.
mod Stores
mod Windows
mod Calls
mod Fortran
