-- ===== src/Examples.antt =====
-- A small server and what the operations do on it.
pub mod Data
pub mod Witnesses
pub mod Clients
pub mod Agents
pub mod Calls
