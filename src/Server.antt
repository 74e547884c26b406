-- ===== src/Server.antt =====
-- src/py_frp/server.py: registration, the port pool, tunnels and the cleanup of clients.
pub mod State
pub mod Allocate
pub mod Preempt
pub mod Register
pub mod Sessions
pub mod Tunnels
pub mod Control
pub mod Moves
pub mod Handlers
pub mod Connections
pub mod Run
pub mod RunMoves
pub mod PortsUnique
pub mod Leases
pub mod Releasing
pub mod Granting
pub mod LeaseActs
pub mod Victim
pub mod LowestPort
pub mod Tables
pub mod Cleanup
pub mod Pairing
