-- ===== src/Maps/Tables.antt =====
-- gtp-router/control/maps/maps.go: the typed wrappers of the kernel maps. A kernel map and the
-- library that reaches it (cilium/ebpf) are the parameter `EbpfMap`.
pub mod Interface
pub mod GoMap
pub mod Wrappers
