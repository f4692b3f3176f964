-- ===== src/Shadowsocks/Client.antt =====
-- The package shadowsocks/client: the packet listener and the stream dialer. The endpoint, the
-- connection to the proxy and the socks library are parameters.
pub mod PacketConn
pub mod Dialer
