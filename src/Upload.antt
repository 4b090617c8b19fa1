-- ===== src/Upload.antt =====
-- The arithmetic of multipart uploads: constants.go, `optimalPartInfo` of
-- api-put-object-common.go, and the splitting of api-compose-object.go.
pub mod Constants
pub mod PartInfo
pub mod Splits
pub mod Compose
pub mod Multipart
pub mod Workers
