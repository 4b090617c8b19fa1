-- ===== src/Names.antt =====
-- pkg/s3utils/utils.go and s3-endpoints.go: names of buckets and objects, their encoding in URLs, and
-- the hosts of endpoints.
pub mod Runes
pub mod Encode
pub mod Check
pub mod Endpoints
pub mod Decode
pub mod Component
pub mod Query
pub mod Strict
pub mod Regions
