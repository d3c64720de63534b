-- ===== src/Examples.antt =====
-- Concrete runs of the program's parts, each with the theorems at work.
pub mod Routing
pub mod Building
pub mod Commands
pub mod Configurations
pub mod Envelopes
pub mod Graphs
pub mod Groups
pub mod Jobs
pub mod Links
pub mod Locks
pub mod Names
pub mod Packages
pub mod Peers
pub mod Services
pub mod Repositories
pub mod Validation
