-- ===== src/Cmd.antt =====
-- Package cmd (gtp-router/control/cmd): the sub-commands of gtp-ctrl.
pub mod Teid
pub mod Exec
pub mod Flags
pub mod AddTeid
pub mod AddUeip
pub mod AddNat
pub mod Delete
pub mod Listing
pub mod Load
pub mod Stats
pub mod Root
