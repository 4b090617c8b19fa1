-- ===== src/Notification.antt =====
-- bucket-notification.go: the notification configurations of a bucket.
pub mod Config
pub mod Bucket
pub mod Filters
pub mod Distinct
pub mod Reach
