-- ===== src/Tests.antt =====
-- The theorems at concrete inputs, and runs of the code.
mod Cmd
mod Cli
mod Sync
mod Web
mod Notices
mod Wire
mod Transfer
mod Fleet
mod Commands
mod Payloads
mod Store
mod Rollout
