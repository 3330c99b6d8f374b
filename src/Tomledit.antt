-- ===== src/Tomledit.antt =====
-- internal/tomledit: comment-preserving, line-level edits of a TOML file.
pub mod Lines
pub mod Header
pub mod Scan
pub mod Span
pub mod Edit
pub mod Keys
pub mod Verify
