-- ===== src/Maps.antt =====
-- Package maps (gtp-router/control/maps): the schema of the kernel maps, the check of a rule, and
-- the typed wrappers of the maps.
pub mod Types
pub mod Validate
pub mod Tables
pub mod Clock
