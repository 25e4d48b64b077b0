-- ===== src/Secrets.antt =====
-- The secrets library: secrets/core and secrets/providers/memory.
pub mod Types
pub mod Secret
pub mod Provider
pub mod Memory
pub mod Manager
pub mod SecretString
pub mod Backend
