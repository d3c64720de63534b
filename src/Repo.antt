-- ===== src/Repo.antt =====
-- repo: the git repositories of the configuration.
pub mod Projects
pub mod Configuration
pub mod Commands
pub mod Jobs
pub mod Synthetic
pub mod Validation
