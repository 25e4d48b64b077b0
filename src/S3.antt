-- ===== src/S3.antt =====
-- The S3 client library: aws/s3.
pub mod Comparator
pub mod Planner
pub mod Client
pub mod Scanner
pub mod Executor
pub mod Sync
pub mod Deletion
pub mod Multipart
pub mod Validation
