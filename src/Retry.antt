-- ===== src/Retry.antt =====
-- retry.go, retry-continous.go: what is retried, how long a retry waits, and the timers.
pub mod Codes
pub mod Backoff
pub mod Timer
