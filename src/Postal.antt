-- ===== src/Postal.antt =====
-- x/postal: job envelopes and their metadata.
pub mod Meta
pub mod Envelopes
