-- ===== src/Server.antt =====
-- The package server: the checks that a request passes before a driver is called.
pub mod Gates
pub mod Op
pub mod Transaction
pub mod Handlers
pub mod Http
pub mod Registrations
pub mod Relay
