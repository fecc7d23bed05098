-- ===== src/Tui.antt =====
-- Package tui (gtp-router/control/tui): the dashboard, and its form that adds and edits rules.
pub mod TextInput
pub mod Styles
pub mod Form
pub mod Dashboard
