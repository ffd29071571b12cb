-- ===== src/Examples.antt =====
-- Concrete runs of the program, at which the theorems apply.
mod Counters
mod Clocks
pub mod Todos
mod Shown
pub mod Systems
pub mod Codecs
mod Checks
mod Syncs
mod Wires
pub mod Networks
pub mod Clusters
mod Edits
mod Changes
mod Processes
mod Sessions
