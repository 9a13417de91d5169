-- ===== src/Json.antt =====
-- json/: the tokeniser, the lookups in its tokens, and the escaping of strings.
pub mod Tokens
pub mod Parser
pub mod Escape
pub mod Body
pub mod Writer
pub mod Written
pub mod Value
pub mod Printed
mod Witnesses
