-- ===== src/Config.antt =====
-- internal/config: the configuration file, its defaults and its checks.
pub mod File
pub mod Defaults
pub mod Validate
pub mod Resolve
