-- ===== src/Controllers.antt =====
-- controllers/: the reconciler of a GpuBudget.
pub mod Merge
pub mod Period
pub mod Rates
pub mod Usage
pub mod Host
pub mod Status
pub mod Reconcile
pub mod PromClient
