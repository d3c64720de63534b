-- ===== src/Subexec.antt =====
-- subexec: named commands, their groups, and the ways to look them up.
pub mod Command
pub mod Tree
pub mod Group
pub mod Filter
pub mod Configuration
pub mod Aliases
pub mod Select
pub mod Validating
