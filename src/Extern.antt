-- ===== src/Extern.antt =====
-- The libraries that the program calls and does not implement, as interfaces.
pub mod Erc
pub mod Sets
pub mod System
pub mod Tables
