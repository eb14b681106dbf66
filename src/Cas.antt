-- ===== src/Cas.antt =====
-- pkg/cas/cas.go: the content-addressed store.
pub mod Identity
pub mod Types
pub mod Copy
pub mod Open
pub mod Sync
pub mod Read
pub mod Write
