-- ===== src/Credentials.antt =====
-- pkg/credentials: `Signature` has the types of signatures, `Provider` what a provider is, and
-- `Expiry`, `Static` and `Chain` providers or parts of them; `Store` is the container that caches.
pub mod Signature
pub mod Provider
pub mod Expiry
pub mod Static
pub mod Chain
pub mod Store
