-- ===== src/Server.antt =====
-- The server classes of src/server.
pub mod Address
pub mod Http
pub mod Tcp
pub mod Routine
pub mod Udp
pub mod Secure
pub mod Pipe
pub mod Setup
pub mod Clients
pub mod Handover
pub mod Accepting
pub mod Emitters
pub mod Release
