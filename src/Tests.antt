-- ===== src/Tests.antt =====
-- Tests: the theorems at concrete inputs, over a small stand-in for the cryptographic libraries.
pub mod Toy
mod Ciphers
mod Streams
mod Services
mod Connections
mod Serving
mod Clients
mod Relays
mod Reports
mod Slices
