-- ===== src/Proxy.antt =====
-- src/proxy: the SOCKS5 server.
pub mod Utf8
pub mod Udp
pub mod Dial
pub mod Handle
pub mod LogGate
pub mod Relay
pub mod Listen
pub mod Serve
pub mod Connection
mod Tests
