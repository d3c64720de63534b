-- ===== src/Gadget.antt =====
-- tools/gadget: the packages of a module and the order to build them in.
pub mod Packages
pub mod BuildOrder
