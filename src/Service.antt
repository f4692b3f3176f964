-- ===== src/Service.antt =====
-- The package service: replay defence, server salts, the cipher list, the search for keys, TCP
-- connections and the life of their service, the UDP NAT table, the two directions of packets and
-- the life of theirs, and the metrics.
pub mod Replay
pub mod ServerSalt
pub mod CipherList
pub mod FindKey
pub mod Nat
pub mod CopyBack
pub mod Lifecycle
pub mod Metrics
pub mod Tcp
pub mod Udp
