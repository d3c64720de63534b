-- ===== src/Sysmgmt.antt =====
-- sysmgmt: the services and links of the host.
pub mod Systemd
pub mod Links
pub mod Packages
pub mod Arch
pub mod Settings
