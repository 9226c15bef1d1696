-- ===== src/Network.antt =====
-- crates/network/src: block synchronisation, gossip and peers.
pub mod Sync
pub mod Gossip
pub mod Peers
