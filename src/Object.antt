-- ===== src/Object.antt =====
-- api-get-object.go: a readable, seekable object. `Types` has the messages and the server,
-- `Fetcher` the goroutine that talks to the server, and `Methods` the methods of `Object`.
pub mod Types
pub mod Fetcher
pub mod Session
pub mod Methods
pub mod Live
pub mod Outcomes
pub mod Calls
pub mod Reading
pub mod Bytes
pub mod Seeking
pub mod Closing
