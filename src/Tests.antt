-- ===== src/Tests.antt =====
-- Each theorem at concrete data: a store in memory, a cluster over it, and the witnesses.
pub mod Namespaces
pub mod Callers
mod Queries
pub mod Started
pub mod Store
pub mod Json
pub mod Objects
pub mod Nested
pub mod Memory
pub mod Data
mod Scale
mod Told
mod Reset
mod Others
mod Host
mod Budgets
mod Standings
mod Calendar
mod Usages
mod Flags
mod Files
