-- ===== src/Enforce.antt =====
-- enforce/enforce.go.
pub mod Gpu
pub mod Report
pub mod Pass
pub mod Restore
pub mod Scale
pub mod Jobs
pub mod JobSets
pub mod Pods
pub mod InferenceServices
pub mod Namespace
