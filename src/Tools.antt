-- ===== src/Tools.antt =====
-- tools: the graph of a module's packages. The search for build orders is in Gadget.
pub mod Depgraph
