-- ===== src/Auth.antt =====
-- common/auth.c and common/auth.h: SHA-256, HMAC and the check of a response.
pub mod Sha256
pub mod Verify
pub mod Accept
pub mod Keyring
pub mod Loaded
pub mod Keygen
pub mod Lines
pub mod Keyline
pub mod Keyfile
pub mod NewKey
pub mod Opens
pub mod Stream
mod Tests
mod Witnesses
