-- ===== src/Srv.antt =====
-- srv: the settings of the services.
pub mod Network
pub mod Logging
pub mod Settings
