-- ===== src/Manifest.antt =====
-- Manifests, src/turbohaul/manifest.py: the checks on the flags of llama-server, its command line,
-- and the files on disk.
pub mod Allowlist
pub mod Value
pub mod Guard
pub mod Validate
pub mod Tables
pub mod Lowered
pub mod Sound
pub mod Kinds
pub mod Accepted
pub mod Argv
pub mod Tag
pub mod Store
mod Examples
