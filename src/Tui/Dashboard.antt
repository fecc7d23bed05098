-- ===== src/Tui/Dashboard.antt =====
-- gtp-router/control/tui/dashboard.go: the live dashboard.
pub mod Rows
pub mod Table
pub mod State
pub mod Selection
pub mod Render
pub mod Defaults
pub mod Commands
pub mod Changes
pub mod Update
pub mod Invariant
pub mod Writing
pub mod Run
pub mod Selected
pub mod Deleting
pub mod View
