-- ===== src/Cp.antt =====
-- cp/: the control plane, its sessions and its commands.
pub mod World
pub mod Access
pub mod Lifecycle
pub mod Cmd
pub mod Params
pub mod Envelope
pub mod Config
pub mod Control
pub mod Stream
pub mod Dispatch
pub mod Server
pub mod Gate
pub mod Attempts
pub mod Radio
pub mod Refusals
pub mod Names
pub mod Locked
pub mod Locks
pub mod Checks
pub mod Phase
pub mod Channel
mod Tests
mod Witnesses
