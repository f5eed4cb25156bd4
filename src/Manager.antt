-- ===== src/Manager.antt =====
-- src/turbohaul/manager.py: the state of TurbohaulManager and what its methods ask of the host.
mod Records
pub mod Effects
pub mod Submit
pub mod Teardown
pub mod Grace
pub mod Process
pub mod Worker
pub mod Sidecar
pub mod Settled
pub mod KeepAlive
mod Examples
pub use Records.*
