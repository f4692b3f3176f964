-- ===== src/Shadowsocks.antt =====
-- The package shadowsocks: ciphers, salts, packets, and the stream writer and reader.
pub mod Crypto
pub mod Cipher
pub mod Salt
pub mod Packet
pub mod Nonce
pub mod Writer
pub mod Reader
pub mod Stream
pub mod Client
