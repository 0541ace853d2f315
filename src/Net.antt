-- ===== src/Net.antt =====
-- src/net.py: what goes over the TCP socket. Wi-Fi, the clock and TLS are not
-- modelled.
pub mod Stream
pub mod Framing
pub mod Reader
pub mod WebSocket
mod Tests
