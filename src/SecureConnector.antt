-- ===== src/SecureConnector.antt =====
-- src/connector/secure.c: a client connection over TLS.
pub mod Names
pub mod Certificates
pub mod Identity
pub mod Connect
pub mod Handshake
