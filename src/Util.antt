-- ===== src/Util.antt =====
-- util/dots.go and util/heplers.go: dotted names, sparse lists and defaults.
pub mod Dots
pub mod Marshal
pub mod Path
