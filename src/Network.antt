-- ===== src/Network.antt =====
-- network/: what the node remembers of its peers and of the objects that it asked for.
pub mod Peer
pub mod PeerDiscipline
pub mod HeaderSync
pub mod Inventory
pub mod Keepalive
pub mod Framing
pub mod Payloads
pub mod Messages
