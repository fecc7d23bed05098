-- ===== src/Examples.antt =====
-- Tests and concrete instances of the theorems.
pub mod TableMap
pub mod Data
pub mod Inputs
pub mod Floats
pub mod Loaders
pub mod Dashboards
pub mod Sessions
pub mod Packets
pub mod Commands
pub mod Tables
pub mod Texts
pub mod Forms
