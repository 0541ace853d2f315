-- ===== src/Relay.antt =====
-- tools/relay_server.py: the desktop side of the bridge.
pub mod Wrap
pub mod Layout
pub mod Frame
pub mod Model
pub mod Server
