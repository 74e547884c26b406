-- ===== src/Client.antt =====
-- src/py_frp/client.py: the client's connections to the server, its registration and its tunnels.
pub mod State
pub mod Trust
pub mod Delay
pub mod Session
pub mod Tunnels
pub mod Reconnect
pub mod Rule
pub mod Pinning
pub mod Forcing
pub mod PauseLengths
pub mod Pauses
