-- ===== src/Subprocess.antt =====
-- The llama-server process, src/turbohaul/subprocess_mgr.py.
pub mod Polling
pub mod Sigterm
pub mod Health
pub mod Vram
pub mod Spawn
mod Examples
