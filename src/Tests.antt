-- ===== src/Tests.antt =====
-- Runs of the theorems at concrete inputs.
mod Tunnels
mod Ports
mod Clients
mod Children
mod Links
mod Starts
mod Restarts
