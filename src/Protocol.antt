-- ===== src/Protocol.antt =====
-- src/py_frp/protocol.py: JSON messages on control connections and binary frames in tunnels.
pub mod Frames
mod Rounds
pub mod RoundTrip
pub mod Messages
pub mod Truncation
pub mod Relay
