-- ===== src/Plugin.antt =====
-- internal/plugin: the order in which plugins start, which of them are enabled, what blocks the
-- requests to a disabled one, and the configuration of a plugin.
pub mod Topo
pub mod Manager
pub mod ConfigStore
