-- ===== src/Router.antt =====
-- x/router: message dispatch, the identifiers of messages, and the connections of a peer.
pub mod Model
pub mod Dispatcher
pub mod Ids
pub mod Peer
