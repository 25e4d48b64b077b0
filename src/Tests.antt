-- ===== src/Tests.antt =====
-- The theorems of the library at concrete inputs.
mod Secrets
mod SecretUses
mod Managers
mod Sync
mod Buckets
mod Scans
mod Uploads
mod Caches
mod Records
mod Files
mod Archives
mod Commands
mod Earthfiles
