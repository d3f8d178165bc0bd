-- ===== src/Examples.antt =====
-- The theorems at concrete inputs.
mod Emitters
mod Removals
mod Certificates
mod Connections
mod Processes
mod Servers
mod Requests
mod Datagrams
mod Queries
mod Routines
mod Tls
mod Startup
mod Handing
mod Histories
