-- ===== src/Link.antt =====
-- The client and the server together: what one side writes, as the other side reads it.
pub mod Registration
pub mod Aliases
pub mod Handshake
pub mod Restarts
pub mod Configless
pub mod ServerRestarts
